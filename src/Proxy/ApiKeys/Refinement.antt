-- ===== src/Proxy/ApiKeys/Refinement.antt =====
-- The key store as its callers see it: a partial function from reverie ids to keys.
use reveries_network.Common.{
  ℕ, ◌≡◌, Bool, true, false, Option, none, some, List, [], ◌∷◌, Result, ok, err, if◌then◌else◌,
  is_some, ◌==◌, string_eq,
}
use reveries_network.Common.Map
use reveries_network.Types.{ReverieId, PublicKey, Bytes}
use reveries_network.Proxy.ApiKeys.{
  ApiKeyPayload, ApiKeyStore, StatusCode, ok_200, not_found_404, internal_error_500, NodeRequest,
  ApiWorld, verify_node_request, Route, health_route, add_route, remove_route, route_of, serve,
}

abbrev pub Keys : Type 0
Keys = ReverieId → Option ApiKeyPayload

-- What the server promises: a key that is added is there until it is replaced or removed, and to
-- remove a key that is not there is told from removing one that is.
abbrev pub promised_add : Bool → Result StatusCode ApiKeyPayload → Keys → Keys × StatusCode
promised_add sound (err rejection) f = (f, rejection)
promised_add true (ok p) f = (λ id. if p.reverie_id == id then some p else f id, ok_200)
promised_add false (ok p) f = (f, internal_error_500)

abbrev pub promised_remove : Bool → Result StatusCode ReverieId → Keys → Keys × StatusCode
promised_remove sound (err rejection) f = (f, rejection)
promised_remove true (ok gone) f =
    (λ id. if gone == id then none else f id, if is_some (f gone) then ok_200 else not_found_404)
promised_remove false (ok gone) f = (f, internal_error_500)

abbrev pub promised :
    ApiWorld → Option Route → NodeRequest → Result StatusCode Bytes → Keys → Keys × StatusCode
promised w none r read f = (f, w.unrouted r)
promised w (some health_route) r read f = (f, ok_200)
promised w (some add_route) r (ok body) f =
    promised_add w.lock_sound (w.json_payload r.content_type body) f
promised w (some remove_route) r (ok body) f =
    promised_remove w.lock_sound (w.json_identifier r.content_type body) f
promised w (some add_route) r (err status) f = (f, status)
promised w (some remove_route) r (err status) f = (f, status)

-- A store holds these keys.
abbrev pub Holds : ApiKeyStore → Keys → Type 0
Holds store f = (id : ReverieId) → Map.get id store ≡ f id

-- what a request to the server comes to, and what it promises
abbrev pub Implements : ApiKeyStore × StatusCode → Keys × StatusCode → Type 0
Implements (store, s) (f, t) = Holds store f × (s ≡ t)

-- A request to the server: when it comes, and what it says.
abbrev pub Call : Type 0
Call = ℕ × NodeRequest

-- The statuses of a sequence of calls, and the store after it.
unfoldable pub serve_all :
    ApiWorld → PublicKey → List Call → ApiKeyStore → ApiKeyStore × List StatusCode
serve_all w key [] store = (store, [])
serve_all w key ((now, r) ∷ calls) store =
    let (next, status) = serve w key now r store in
    let (last, statuses) = serve_all w key calls next in (last, status ∷ statuses)

abbrev pub promised_all : ApiWorld → PublicKey → List Call → Keys → Keys × List StatusCode
promised_all w key [] f = (f, [])
promised_all w key ((now, r) ∷ calls) f =
    let (g, status) = promised w (route_of r.method r.path) r (verify_node_request w key now r) f in
    let (last, statuses) = promised_all w key calls g in (last, status ∷ statuses)
