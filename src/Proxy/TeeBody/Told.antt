-- ===== src/Proxy/TeeBody/Told.antt =====
-- What the client and the logging task get of a body.
use reveries_network.Common.{List, [], ◌∷◌, ◌++◌}
use reveries_network.Proxy.TeeBody.{Polled, Tee, Act, poll}

abbrev pub polls : {E : Type 0} → List (Act E) → List (Polled E)
polls [] = []
polls (poll p ∷ acts) = p ∷ polls acts
polls (_ ∷ acts) = polls acts

module _ {E S A : Type 0} where
  -- What has been sent, in order: what the task has got, and what waits for it.
  abbrev pub told : Tee E S A → List A
  told t = t.received ++ t.queue
