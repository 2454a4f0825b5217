-- ===== src/PeerManager/Kfrags.antt =====
-- The two indices of key fragments agree: `kfrag_providers`, by reverie, and
-- `peers_to_reverie_frags`, by peer.
use reveries_network.Common.{
  ℕ, String, ◌≡◌, refl, Bool, true, false, ◌&&◌, ◌||◌, Option, none, some, List, [], ◌∷◌, arith,
  ◌==◌, ==_iff, string_eq, if◌then◌else◌, any, Bool-cases, inl, inr,
}
use reveries_network.Common.Map
use reveries_network.Common.Map.{HashMap, get-insert, get-remove}
use reveries_network.Common.HashSet
use reveries_network.Common.HashSet.{HashSet, contains, contains-insert, contains-remove}
use reveries_network.Types.{PeerId, ReverieId}
use reveries_network.PeerManager.{
  PeerManager, TrackReverieFragment, track_eq, insert_kfrag_provider, remove_provider,
  remove_provider_from, remove_kfrag_provider, new,
}

abbrev pub or_empty : {A : Type 0} → Option (HashSet A) → HashSet A
or_empty none = []
or_empty (some s) = s

abbrev provides_in : PeerId → ReverieId → HashMap ReverieId (HashSet PeerId) → Bool
provides_in p r m = contains p (or_empty (Map.get r m))

-- `p` is listed as a provider of `r`.
abbrev pub provides : PeerId → ReverieId → PeerManager → Bool
provides p r m = provides_in p r m.kfrag_providers

abbrev pub is_of : ReverieId → TrackReverieFragment → Bool
is_of r f = f.reverie_id == r

-- `p` is recorded to hold some fragment of `r`.
abbrev pub tracks : PeerId → ReverieId → PeerManager → Bool
tracks p r m = any (is_of r) (or_empty (Map.get p m.peers_to_reverie_frags))

pub record IsConsistent (m : PeerManager) : Type 0 where
  pub agree : (p : PeerId) (r : ReverieId) → provides p r m ≡ tracks p r m

any-of-contains :
    (r : ReverieId) (f : TrackReverieFragment) (xs : List TrackReverieFragment)
    → contains f xs ≡ true
    → is_of r f ≡ true
    → any (is_of r) xs ≡ true
unfolding contains
any-of-contains r f [] h k = cc
any-of-contains r f (x ∷ xs) h k = ground (arith, any-of-contains r f xs, track_eq.beq_iff x f)

any-insert :
    (r : ReverieId) (f : TrackReverieFragment) (xs : List TrackReverieFragment)
    → any (is_of r) (HashSet.insert f xs) ≡ (is_of r f || any (is_of r) xs)
unfolding HashSet.insert
any-insert r f xs = elim (Bool-cases (contains f xs)) [
  | inl old ↦ ground (arith, any-of-contains r f xs old)
  | inr new ↦ ground arith
]

module _ (p q : PeerId) (r s : ReverieId) (n : ℕ) (m : PeerManager) where
  provides-insert :
      provides q s (insert_kfrag_provider p r n m) ≡ ((p == q) && (r == s) || provides q s m)
  unfolding insert_kfrag_provider
  provides-insert = ground (
    arith,
    get-insert r s (HashSet.insert p (or_empty (Map.get r m.kfrag_providers))) m.kfrag_providers,
    contains-insert p q (or_empty (Map.get r m.kfrag_providers)),
    ==_iff r s,
  )

  tracks-insert :
      tracks q s (insert_kfrag_provider p r n m) ≡ ((p == q) && (r == s) || tracks q s m)
  unfolding insert_kfrag_provider
  tracks-insert =
      let frag : TrackReverieFragment = record { reverie_id = r; frag_num = n } in
      let old : HashSet TrackReverieFragment = or_empty (Map.get p m.peers_to_reverie_frags) in
      ground (
        arith,
        get-insert p q (HashSet.insert frag old) m.peers_to_reverie_frags,
        any-insert s frag old,
        ==_iff p q,
      )

provides_in-remove_provider :
    (p q : PeerId) (r s : ReverieId) (m : HashMap ReverieId (HashSet PeerId))
    → provides_in q s (remove_provider p r m)
      ≡ (if (p == q) && (r == s) then false else provides_in q s m)
unfolding remove_provider contains
provides_in-remove_provider p q r s m = ground (
  arith,
  get-insert r s (HashSet.remove p (or_empty (Map.get r m))) m,
  contains-remove p q (or_empty (Map.get r m)),
  ==_iff r s,
)

provides_in-remove :
    (p q : PeerId) (s : ReverieId) (frags : List TrackReverieFragment)
    (m : HashMap ReverieId (HashSet PeerId))
    → provides_in q s (remove_provider_from p frags m)
      ≡ (if (p == q) && any (is_of s) frags then false else provides_in q s m)
unfolding remove_provider_from
provides_in-remove p q s [] m = ground arith
provides_in-remove p q s (f ∷ frags) m = ground (
  arith,
  provides_in-remove p q s frags (remove_provider p f.reverie_id m),
  provides_in-remove_provider p q f.reverie_id s m,
)

module _ (p q : PeerId) (s : ReverieId) (m : PeerManager) where
  provides-remove :
      provides q s (remove_kfrag_provider p m)
      ≡ (if (p == q) && tracks p s m then false else provides q s m)
  unfolding remove_kfrag_provider
  provides-remove = ground (
    arith,
    provides_in-remove p q s (or_empty (Map.get p m.peers_to_reverie_frags)) m.kfrag_providers,
  )

  tracks-remove : tracks q s (remove_kfrag_provider p m) ≡ (if p == q then false else tracks q s m)
  unfolding remove_kfrag_provider
  tracks-remove = ground (arith, get-remove p q m.peers_to_reverie_frags, ==_iff p q)

-- A new manager has both indices empty.
pub new-IsConsistent : (name : String) (me : PeerId) → IsConsistent (new name me)
unfolding new Map.get contains
new-IsConsistent name me = record { agree = λ p r. refl }

-- To record a provider keeps the two indices in agreement: from then on the peer is listed for the
-- reverie in both, and every other pair of a peer and a reverie is listed as it was.
pub insert_kfrag_provider-IsConsistent :
    (p : PeerId) (r : ReverieId) (n : ℕ) (m : PeerManager)
    → IsConsistent m
    → IsConsistent (insert_kfrag_provider p r n m)
      × ((q : PeerId) (s : ReverieId)
          → provides q s (insert_kfrag_provider p r n m) ≡ ((p == q) && (r == s) || provides q s m))
insert_kfrag_provider-IsConsistent p r n m h = (
  record {
    agree = λ q s. rw (provides-insert p q r s n m, tracks-insert p q r s n m, h.agree q s) refl;
  },
  λ q s. provides-insert p q r s n m,
)

-- To remove a peer keeps the two indices in agreement, takes the peer out of the providers of every
-- reverie, and leaves every other peer listed as it was.
pub remove_kfrag_provider-IsConsistent :
    (p : PeerId) (m : PeerManager)
    → IsConsistent m
    → IsConsistent (remove_kfrag_provider p m)
      × ((q : PeerId) (s : ReverieId)
          → provides q s (remove_kfrag_provider p m) ≡ (if p == q then false else provides q s m))
remove_kfrag_provider-IsConsistent p m h =
    (record { agree = λ q s. rw (tracks-remove p q s m, ← h.agree q s) (gone q s) }, gone)
  where
    gone :
        (q : PeerId) (s : ReverieId)
        → provides q s (remove_kfrag_provider p m) ≡ (if p == q then false else provides q s m)
    gone q s = ground (arith, provides-remove p q s m, h.agree p s, ==_iff p q)
