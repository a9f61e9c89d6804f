-- ===== src/StreamStatus/Record.antt =====
-- What a status says after any sequence of calls.
use token_flux.Base.{
  ℕ, zero, suc, ◌+◌, ◌-◌, ◌≡◌, refl, ap, ◌∙◌, sym, ltb, true, false, String, Option, none, List, [],
  ◌∷◌, ◌++◌, length, length-append, arith, Bool-cases, inl, inr, if◌then◌else◌,
}
use token_flux.StreamStatus.{
  StreamStatus, new_stream_status, set_end_reason, record_error, max_stream_errors,
}

-- A call on the status.
pub data Call : Type 0 where
  ends : String → Option String → Call
  fails : String → Call

unfoldable pub run : List Call → StreamStatus → StreamStatus
run [] s = s
run (ends reason err ∷ cs) s = run cs (set_end_reason reason err s)
run (fails msg ∷ cs) s = run cs (record_error msg s)

-- The messages recorded, the first reason given, and the first entries of a list.
abbrev pub messages : List Call → List String
messages [] = []
messages (ends reason err ∷ cs) = messages cs
messages (fails msg ∷ cs) = msg ∷ messages cs

abbrev pub first_end : List Call → String × Option String
first_end [] = ("", none)
first_end (ends reason err ∷ cs) = (reason, err)
first_end (fails msg ∷ cs) = first_end cs

unfoldable pub take : ℕ → List String → List String
take zero xs = []
take (suc n) [] = []
take (suc n) (x ∷ xs) = x ∷ take n xs

append_assoc :
    (xs : List String) (y : String) (ys : List String) → (xs ++ y ∷ []) ++ ys ≡ xs ++ y ∷ ys
append_assoc [] y ys = refl
append_assoc (x ∷ xs) y ys = ap (λ zs. x ∷ zs) (append_assoc xs y ys)

append-nil : (xs : List String) → xs ++ [] ≡ xs
append-nil [] = refl
append-nil (x ∷ xs) = ap (λ zs. x ∷ zs) (append-nil xs)

take-nil : (n : ℕ) → take n [] ≡ []
unfolding take
take-nil zero = refl
take-nil (suc n) = refl

end-errors :
    (reason : String) (err : Option String) (s : StreamStatus)
    → (set_end_reason reason err s).errors ≡ s.errors
unfolding set_end_reason
end-errors reason err s = elim (Bool-cases s.ended) [ inl e ↦ rw e refl | inr e ↦ rw e refl ]

-- The errors kept after the message, and the room left, as one list.
record-errors :
    (msg : String) (ms es : List String)
    → let es' = if ltb (length es) max_stream_errors then es ++ msg ∷ [] else es in
      es' ++ take (max_stream_errors - length es') ms
      ≡ es ++ take (max_stream_errors - length es) (msg ∷ ms)
unfolding take
record-errors msg ms es = elim (Bool-cases (ltb (length es) max_stream_errors)) [
  | inl e ↦
      let room : max_stream_errors - length es ≡ suc (max_stream_errors - length (es ++ msg ∷ [])) =
        ground (arith, length-append es (msg ∷ [])) in
      rw (e, room) (append_assoc es msg (take (max_stream_errors - length (es ++ msg ∷ [])) ms))
  | inr e ↦ let room : max_stream_errors - length es ≡ zero = ground arith in rw (e, room) refl
]

run-errors :
    (cs : List Call) (s : StreamStatus)
    → (run cs s).errors ≡ s.errors ++ take (max_stream_errors - length s.errors) (messages cs)
unfolding run record_error
run-errors [] s = rw (take-nil (max_stream_errors - length s.errors)) (sym (append-nil s.errors))
run-errors (ends reason err ∷ cs) s =
    run-errors cs (set_end_reason reason err s)
    ∙ ap (λ es. es ++ take (max_stream_errors - length es) (messages cs)) (end-errors reason err s)
run-errors (fails msg ∷ cs) s =
    run-errors cs (record_error msg s) ∙ record-errors msg (messages cs) s.errors

run-err_count :
    (cs : List Call) (s : StreamStatus) → (run cs s).err_count ≡ s.err_count + length (messages cs)
unfolding run set_end_reason record_error
run-err_count [] s = omega arith
run-err_count (ends reason err ∷ cs) s =
    ground (arith, run-err_count cs (set_end_reason reason err s))
run-err_count (fails msg ∷ cs) s = ground (arith, run-err_count cs (record_error msg s))

first-wins :
    (reason : String) (err : Option String) (s : StreamStatus)
    → s.ended ≡ true
    → set_end_reason reason err s ≡ s
unfolding set_end_reason
first-wins reason err s h =
    ap (λ b. if b then s else record s { ended = true; reason = reason; err = err }) h

run-ended : (cs : List Call) (s : StreamStatus) → s.ended ≡ true → (run cs s).reason ≡ s.reason
unfolding run set_end_reason record_error
run-ended [] s h = refl
run-ended (ends reason err ∷ cs) s h =
    ap (λ x. (run cs x).reason) (first-wins reason err s h) ∙ run-ended cs s h
run-ended (fails msg ∷ cs) s h = run-ended cs (record_error msg s) h

run-reason :
    (cs : List Call) (s : StreamStatus)
    → s.ended ≡ false
    → s.reason ≡ ""
    → (run cs s).reason ≡ (first_end cs).0
unfolding run set_end_reason record_error
run-reason [] s h k = k
run-reason (ends reason err ∷ cs) s h k =
    rw h (run-ended cs (record s { ended = true; reason = reason; err = err }) refl)
run-reason (fails msg ∷ cs) s h k = run-reason cs (record_error msg s) h k

-- After any sequence of calls on a new status, the reason is the first one that was set, all errors are
-- counted, and the first twenty of their messages are kept, in order.
pub run-records :
    (cs : List Call)
    → ((run cs new_stream_status).reason ≡ (first_end cs).0)
      × ((run cs new_stream_status).err_count ≡ length (messages cs))
      × ((run cs new_stream_status).errors ≡ take max_stream_errors (messages cs))
run-records cs = (
  run-reason cs new_stream_status refl refl,
  run-err_count cs new_stream_status ∙ omega arith,
  run-errors cs new_stream_status ∙ room,
)
  where
    room : [] ++ take (max_stream_errors - 0) (messages cs) ≡ take max_stream_errors (messages cs)
    room = refl
