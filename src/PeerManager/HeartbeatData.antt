-- ===== src/PeerManager/HeartbeatData.antt =====
-- network_events/peer_manager/heartbeat_data.rs: the moving window over a peer's heartbeats.
-- The clock is an argument: an `Instant` is a number of nanoseconds. The front of the deque is the
-- head of the list.
use reveries_network.Common.{
  ℕ, zero, suc, ◌-◌, ◌/◌, ◌<◌, ◌≤◌, ◌≡◌, refl, ap, List, [], ◌∷◌, arith, length, take, sum, nat_beq,
  length-take-le, if◌then◌else◌,
}
use reveries_network.Heartbeat.Attestation.{TeeAttestation, default_attestation}

pub record HeartBeatData : Type 0 where
  pub tee_payload : TeeAttestation
  pub last_heartbeat : ℕ
  pub last_heartbeat_sys : ℕ
  pub size_moving_window : ℕ
  pub durations : List ℕ

-- the readings of the monotonic clock and of the system clock
pub record Now : Type 0 where
  pub instant : ℕ
  pub system : ℕ

unfoldable pub new : ℕ → Now → HeartBeatData
new window now = record {
  tee_payload = default_attestation;
  last_heartbeat = now.instant;
  last_heartbeat_sys = now.system;
  size_moving_window = window;
  durations = [];
}

unfoldable pub duration_since_last_heartbeat : HeartBeatData → ℕ → ℕ
duration_since_last_heartbeat d now = now - d.last_heartbeat

unfoldable pub average_time_between_heartbeats : HeartBeatData → ℕ
average_time_between_heartbeats d = elim d.durations [
  | [] ↦ 0
  | x ∷ xs ↦ sum (x ∷ xs) / length (x ∷ xs)
]

pop_back : List ℕ → List ℕ
pop_back [] = []
pop_back (x ∷ []) = []
pop_back (x ∷ y ∷ xs) = x ∷ pop_back (y ∷ xs)

add_new_duration : HeartBeatData → ℕ → HeartBeatData
unfolding pop_back
add_new_duration d new_duration =
    let kept : List ℕ =
      if nat_beq (length d.durations) d.size_moving_window
      then pop_back d.durations
      else d.durations in
    record d { durations = new_duration ∷ kept }

unfoldable pub update : HeartBeatData → TeeAttestation → Now → HeartBeatData
unfolding add_new_duration
update d tee_payload now =
    add_new_duration
      (record d {
        tee_payload = tee_payload;
        last_heartbeat = now.instant;
        last_heartbeat_sys = now.system;
      })
      (now.instant - d.last_heartbeat)

-- Heartbeats that arrive one after the other.
pub updates : HeartBeatData → List (TeeAttestation × Now) → HeartBeatData
updates d [] = d
updates d ((t, now) ∷ rest) = updates (update d t now) rest

-- The specification: all intervals, the newest first, and the mean of a list.
pub intervals : ℕ → List ℕ → List (TeeAttestation × Now) → List ℕ
intervals last acc [] = acc
intervals last acc ((t, now) ∷ rest) = intervals now.instant ((now.instant - last) ∷ acc) rest

abbrev pub mean : List ℕ → ℕ
mean [] = 0
mean (x ∷ xs) = sum (x ∷ xs) / length (x ∷ xs)

pop_back-take : (n : ℕ) (xs : List ℕ) → length xs ≡ suc n → pop_back xs ≡ take n xs
unfolding pop_back
pop_back-take n [] h = absurd (omega arith)
pop_back-take zero (x ∷ []) h = refl
pop_back-take (suc n) (x ∷ []) h = absurd (omega arith)
pop_back-take zero (x ∷ y ∷ xs) h = absurd (omega arith)
pop_back-take (suc n) (x ∷ y ∷ xs) h = ap (◌∷◌ x) (pop_back-take n (y ∷ xs) (omega arith))

take_short : (n : ℕ) (xs : List ℕ) → length xs ≤ n → take n xs ≡ xs
take_short zero [] h = refl
take_short zero (x ∷ xs) h = absurd (omega arith)
take_short (suc n) [] h = refl
take_short (suc n) (x ∷ xs) h = ap (◌∷◌ x) (take_short n xs (omega arith))

take-take : (n : ℕ) (xs : List ℕ) → take n (take (suc n) xs) ≡ take n xs
take-take zero xs = refl
take-take (suc n) [] = refl
take-take (suc n) (x ∷ xs) = ap (◌∷◌ x) (take-take n xs)

-- One heartbeat adds its interval and keeps the window.
update-take :
    (w : ℕ) (h : List ℕ) (d : HeartBeatData) (t : TeeAttestation) (now : Now)
    → d.size_moving_window ≡ suc w
    → d.durations ≡ take (suc w) h
    → (update d t now).durations ≡ take (suc w) ((now.instant - d.last_heartbeat) ∷ h)
unfolding update
update-take w h d t now e p = ground (
  arith,
  pop_back-take w (take (suc w) h),
  take_short w (take (suc w) h),
  length-take-le (suc w) h,
  take-take w h,
)

updates-take :
    (w : ℕ) (h : List ℕ) (d : HeartBeatData) (beats : List (TeeAttestation × Now))
    → d.size_moving_window ≡ suc w
    → d.durations ≡ take (suc w) h
    → (updates d beats).durations ≡ take (suc w) (intervals d.last_heartbeat h beats)
unfolding updates intervals update
updates-take w h d [] e p = p
updates-take w h d ((t, now) ∷ rest) e p =
    updates-take w ((now.instant - d.last_heartbeat) ∷ h) (update d t now) rest e
      (update-take w h d t now e p)

average-mean :
    (d : HeartBeatData) (xs : List ℕ)
    → d.durations ≡ xs
    → average_time_between_heartbeats d ≡ mean xs
unfolding average_time_between_heartbeats
average-mean d xs e = ground arith

-- Whatever heartbeats arrive, and whenever, the average is the mean of the newest intervals, as
-- many as the window holds, for a window that is not empty.
pub average-updates :
    (window : ℕ) (start : Now) (beats : List (TeeAttestation × Now))
    → 0 < window
    → average_time_between_heartbeats (updates (new window start) beats)
      ≡ mean (take window (intervals start.instant [] beats))
unfolding new
average-updates zero start beats h = absurd (omega arith)
average-updates (suc w) start beats h =
    average-mean (updates (new (suc w) start) beats) _
      (updates-take w [] (new (suc w) start) beats refl refl)
