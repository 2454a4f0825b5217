-- ===== src/Proxy/TeeBody/Complete.antt =====
-- What the logging task gets of a body that is not too long for the channel.
use reveries_network.Common.{
  ℕ, ◌+◌, ◌≤◌, ◌≡◌, refl, sym, ap, subst, ◌∙◌, false, ◌||◌, Option, some, List, [], ◌∷◌, ◌++◌,
  append_assoc, append-nil, leb, length, length-append, map, length-map, arith, All, String,
}
use reveries_network.Types.{Bytes}
use reveries_network.Proxy.Usage.{Request}
use reveries_network.Proxy.Parser.Regular.{Codecs, receive, report_body, log_regular_response_task}
use reveries_network.Proxy.TeeBody.{
  Polled, data_frame, trailers, error, ended, pending, channel_size, Tee, Act, poll, recv, close,
  try_send, try_send_all, take_one, poll_frame, act, run, new, same_error, on_data,
}
use reveries_network.Proxy.Sse.RoundTrip.{joined}
use reveries_network.Proxy.TeeBody.Told.{polls, told}

module _ {E S A : Type 0} (on_data : Bytes → S → List A × S) where
  -- what the frames with data make, if no message is dropped
  unfoldable pub made : List (Polled E) → S → List A
  made [] s = []
  made (data_frame bytes ∷ ps) s = (on_data bytes s).0 ++ made ps (on_data bytes s).1
  made (_ ∷ ps) s = made ps s

abbrev pub IsOpen : {E : Type 0} → Act E → Type 0
IsOpen close = ⊥
IsOpen _ = Unit

module _ {E S A : Type 0} where
  try_send_all-told :
      (us : List A) (t : Tee E S A)
      → t.closed ≡ false
      → length t.queue + length us ≤ channel_size
      → ((try_send_all us t).closed ≡ false)
        × (told (try_send_all us t) ≡ told t ++ us)
        × ((try_send_all us t).state ≡ t.state)
  unfolding try_send_all
  try_send_all-told [] t h fits = (h, sym (append-nil (told t)), refl)
  try_send_all-told (a ∷ us) t h fits =
      let room : (t.closed || leb channel_size (length t.queue)) ≡ false = ground arith in
      let next : Tee E S A = record t { queue = t.queue ++ (a ∷ []) } in
      let (still, sent, same) =
        try_send_all-told us next h (omega (arith, length-append t.queue (a ∷ []))) in
      let one : try_send a t ≡ next = rw (try_send, room) refl in
      subst
        (λ (u : Tee E S A).
          ((try_send_all us u).closed ≡ false)
          × (told (try_send_all us u) ≡ told t ++ (a ∷ us))
          × ((try_send_all us u).state ≡ t.state))
        (sym one)
        (
          still,
          sent
              ∙ ap (λ q. q ++ us) (sym (append_assoc t.received t.queue (a ∷ [])))
              ∙ append_assoc (told t) (a ∷ []) us,
          same,
        )

  take_one-told :
      (q : List A) (t : Tee E S A)
      → t.queue ≡ q
      → ((take_one q t).closed ≡ t.closed)
        × (told (take_one q t) ≡ told t)
        × ((take_one q t).state ≡ t.state)
  unfolding take_one
  take_one-told [] t e = (refl, refl, refl)
  take_one-told (a ∷ q) t e = (refl, rw e (append_assoc t.received (a ∷ []) q), refl)

module _ {E S A : Type 0} (map_err : E → E) (on_data : Bytes → S → List A × S) where
  run-told :
      (acts : List (Act E)) (t : Tee E S A)
      → All IsOpen acts
      → t.closed ≡ false
      → length (told t ++ made on_data (polls acts) t.state) ≤ channel_size
      → told (run map_err on_data acts t) ≡ told t ++ made on_data (polls acts) t.state
  unfolding run act poll_frame made
  run-told [] t opened h fits = sym (append-nil (told t))
  run-told (poll (data_frame bytes) ∷ acts) t opened h fits =
      let us = (on_data bytes t.state).0 in
      let after = (on_data bytes t.state).1 in
      let rest = made on_data (polls acts) after in
      let next = act map_err on_data (poll (data_frame bytes)) t in
      let room : length t.queue + length us ≤ channel_size = omega (
        arith,
        fits,
        length-append (told t) (us ++ rest),
        length-append us rest,
        length-append t.received t.queue,
      ) in
      let (still, sent, same) = try_send_all-told us (record t { state = after }) h room in
      let whole : told next ++ made on_data (polls acts) next.state ≡ told t ++ (us ++ rest) =
        ap (λ xs. xs ++ made on_data (polls acts) next.state) sent
        ∙ ap (λ st. (told t ++ us) ++ made on_data (polls acts) st) same
        ∙ append_assoc (told t) us rest in
      run-told acts next opened.1 still (subst (λ xs. length xs ≤ channel_size) (sym whole) fits)
      ∙ whole
  run-told (poll (trailers headers) ∷ acts) t opened h fits = run-told acts _ opened.1 h fits
  run-told (poll (error e) ∷ acts) t opened h fits = run-told acts _ opened.1 h fits
  run-told (poll ended ∷ acts) t opened h fits = run-told acts _ opened.1 h fits
  run-told (poll pending ∷ acts) t opened h fits = run-told acts _ opened.1 h fits
  run-told (recv ∷ acts) t opened h fits =
      let next = take_one t.queue t in
      let (still, same_told, same) = take_one-told t.queue t refl in
      let whole : told next ++ made on_data (polls acts) next.state
          ≡ told t ++ made on_data (polls acts) t.state =
        ap (λ xs. xs ++ made on_data (polls acts) next.state) same_told
        ∙ ap (λ st. told t ++ made on_data (polls acts) st) same in
      run-told acts next opened.1 (still ∙ h)
        (subst (λ xs. length xs ≤ channel_size) (sym whole) fits)
      ∙ whole
  run-told (close ∷ acts) t opened h fits = absurd opened.0

  -- A body whose messages are at most 100 in all, with a logging task that does not go away, tells the
  -- task all of them in order, however the polls and the task take turns: what the task has got, and
  -- what waits for it, is what the frames make.
  pub run-made :
      (acts : List (Act E)) (s : S)
      → All IsOpen acts
      → length (made on_data (polls acts) s) ≤ channel_size
      → told (run map_err on_data acts (new s)) ≡ made on_data (polls acts) s
  unfolding new
  run-made acts s opened fits = run-told acts (new s) opened refl fits

-- the data of the frames
abbrev pub frames : {E : Type 0} → List (Polled E) → List Bytes
frames [] = []
frames (data_frame bytes ∷ ps) = bytes ∷ frames ps
frames (_ ∷ ps) = frames ps

made-frames :
    {E : Type 0} (ps : List (Polled E)) (u : Unit {0})
    → made on_data ps u ≡ map (λ b. some b) (frames ps)
unfolding made on_data
made-frames [] u = refl
made-frames (data_frame bytes ∷ ps) u = ap (λ rest. some bytes ∷ rest) (made-frames ps u)
made-frames (trailers headers ∷ ps) u = made-frames ps u
made-frames (error e ∷ ps) u = made-frames ps u
made-frames (ended ∷ ps) u = made-frames ps u
made-frames (pending ∷ ps) u = made-frames ps u

receive-map :
    (bs : List Bytes) (log_buffer : Bytes)
    → receive (map (λ b. some b) bs) log_buffer ≡ some (log_buffer ++ joined bs)
unfolding receive
receive-map [] log_buffer = ap some (sym (append-nil log_buffer))
receive-map (b ∷ bs) log_buffer =
    receive-map bs (log_buffer ++ b) ∙ ap some (append_assoc log_buffer b (joined bs))

-- The report of a whole answer of at most 100 frames with data, once the task has taken all that was
-- sent, is that of the data in one piece; and so also when the answer broke off with an error, which
-- the body passes on to the client and not to the task.
pub run-log_regular_response_task :
    {E : Type 0} (c : Codecs) (encoding url : Option String) (r : Request) (now : ℕ)
    (acts : List (Act E))
    → All IsOpen acts
    → length (frames (polls acts)) ≤ channel_size
    → (run same_error on_data acts (new record {})).queue ≡ []
    → log_regular_response_task c encoding url r now
        (run same_error on_data acts (new record {})).received
      ≡ report_body c encoding url r now (some (joined (frames (polls acts))))
unfolding log_regular_response_task
run-log_regular_response_task c encoding url r now acts opened fits drained =
    let t = run same_error on_data acts (new record {}) in
    let few : length (made on_data (polls acts) (record {})) ≤ channel_size = omega (
      arith,
      fits,
      ap length (made-frames (polls acts) (record {})),
      length-map (λ (b : Bytes). some b) (frames (polls acts)),
    ) in
    let all : t.received ≡ map (λ b. some b) (frames (polls acts)) =
      sym (append-nil t.received)
      ∙ ap (λ q. t.received ++ q) (sym drained)
      ∙ run-made same_error on_data acts (record {}) opened few
      ∙ made-frames (polls acts) (record {}) in
    ap (report_body c encoding url r now)
      (ap (λ cs. receive cs []) all ∙ receive-map (frames (polls acts)) [])
