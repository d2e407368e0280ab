-- ===== src/Control/Pipe/Transfer.antt =====
-- TransferExact of AudioPlaybackConnector2/src/control/CommandPipeIo.cpp: a block of bytes goes over the
-- pipe in pieces. The operating system's answers are given one by one.
use audio_playback_connector.Prelude.{
  ℕ, zero, suc, ◌-◌, ◌≤◌, ◌≡◌, ◌∙◌, ◌≢◌, ◌↔◌, ap, sym, refl, false, Option, none, some, List, [],
  ◌∷◌, ◌++◌, ◌==◌, if◌then◌else◌, length, take, arith, Bool-cases, inl, inr,
}
use mathlib.Core.List.{append-nil, append_assoc}
use audio_playback_connector.Control.Protocol.{drop}
use audio_playback_connector.Control.Pipe.Wire.{
  Bytes, IoStatus, success, cancelled, timeout, closed, failed,
}

-- What one round of the loop meets: the stop event or the deadline before the call, the bytes that were
-- transferred, an end of the pipe, an aborted or a failed call, or the deadline or the stop event
-- while the call was pending, which is then cancelled.
pub data Round : Type 0 where
  stopped expired broken aborted faulty wait_expired wait_stopped : Round
  transferred : ℕ → Round

-- The end of a round without a transfer.
abbrev pub status_of : Round → IoStatus
status_of stopped = cancelled
status_of expired = timeout
status_of broken = closed
status_of aborted = cancelled
status_of faulty = failed
status_of wait_expired = timeout
status_of wait_stopped = cancelled
status_of (transferred n) = closed

-- The loop, on the bytes that remain and those that went over; no status while a further round is
-- needed. The system transfers at most what it is asked for.
unfoldable pub transfer : List Round → Bytes → Bytes → Option IoStatus × Bytes
transfer rounds [] gone = (some success, gone)
transfer [] (b ∷ rest) gone = (none, gone)
transfer (transferred n ∷ rounds) (b ∷ rest) gone =
    let next = transfer rounds (drop n (b ∷ rest)) (gone ++ take n (b ∷ rest)) in
    if n == 0 then (some closed, gone) else next
transfer (round ∷ rounds) (b ∷ rest) gone = (some (status_of round), gone)

take-drop : (n : ℕ) (w : Bytes) → w ≡ take n w ++ drop n w
unfolding drop
take-drop zero w = refl
take-drop (suc n) [] = refl
take-drop (suc n) (b ∷ w) = ap (λ x. b ∷ x) (take-drop n w)

-- The bytes `out` that went over are those that had gone before and the first of the remaining; `tail`
-- is what is left, nothing exactly if the status is a success.
record IsPart (rest gone : Bytes) (a : Option IoStatus × Bytes) : Type 0 where
  now : Bytes
  tail : Bytes
  sent : a.1 ≡ gone ++ now
  left : rest ≡ now ++ tail
  ended : (a.0 ≡ some success) ↔ (tail ≡ [])

none_of :
    (rest gone : Bytes) (s : Option IoStatus)
    → s ≢ some success
    → rest ≢ []
    → IsPart rest gone (s, gone)
none_of rest gone s n m = record {
  now = [];
  tail = rest;
  sent = sym (append-nil gone);
  left = refl;
  ended = (λ h. absurd (n h), λ h. absurd (m h));
}

transfer-IsPart :
    (rounds : List Round) (rest gone : Bytes) → IsPart rest gone (transfer rounds rest gone)
unfolding transfer
transfer-IsPart rounds [] gone = record {
  now = [];
  tail = [];
  sent = sym (append-nil gone);
  left = refl;
  ended = (λ h. refl, λ h. refl);
}
transfer-IsPart [] (b ∷ rest) gone = none_of _ gone none (cc) (cc)
transfer-IsPart (transferred n ∷ rounds) (b ∷ rest) gone = elim (Bool-cases (n == 0)) [
  | inl e ↦ rw (e, transfer) (none_of _ gone _ (cc) (cc))
  | inr e ↦
      let p = transfer-IsPart rounds (drop n (b ∷ rest)) (gone ++ take n (b ∷ rest)) in
      rw (e, transfer)
        (record {
          now = take n (b ∷ rest) ++ p.now;
          tail = p.tail;
          sent = p.sent ∙ append_assoc gone (take n (b ∷ rest)) p.now;
          left =
              take-drop n (b ∷ rest)
              ∙ ap (λ x. take n (b ∷ rest) ++ x) p.left
              ∙ sym (append_assoc (take n (b ∷ rest)) p.now p.tail);
          ended = p.ended;
        })
]
transfer-IsPart (round ∷ rounds) (b ∷ rest) gone = none_of _ gone _ (cc) (cc)

-- However the system answers, the bytes that went over are the first bytes of the block, in order, and the transfer
-- succeeds exactly when they are all of it.
pub transfer_in_order :
    (rounds : List Round) (block : Bytes)
    → (tail : Bytes) × (block ≡ (transfer rounds block []).1 ++ tail)
      × (((transfer rounds block []).0 ≡ some success) ↔ (tail ≡ []))
transfer_in_order rounds block =
    let p = transfer-IsPart rounds block [] in
    (p.tail, p.left ∙ ap (λ x. x ++ p.tail) (sym p.sent), p.ended)

-- Rounds in which bytes go over.
abbrev pub MovesOn : List Round → Type 0
MovesOn [] = Unit
MovesOn (transferred n ∷ rounds) = (1 ≤ n) × MovesOn rounds
MovesOn (round ∷ rounds) = ⊥

length-drop : (n : ℕ) (w : Bytes) → length (drop n w) ≡ length w - n
unfolding drop
length-drop zero w = omega arith
length-drop (suc n) [] = omega arith
length-drop (suc n) (b ∷ w) = omega (arith, length-drop n w)

ends :
    (rounds : List Round) (rest gone : Bytes)
    → MovesOn rounds
    → length rest ≤ length rounds
    → (transfer rounds rest gone).0 ≡ some success
unfolding transfer
ends rounds [] gone m h = refl
ends [] (b ∷ rest) gone m h = absurd (omega (arith, h))
ends (transferred n ∷ rounds) (b ∷ rest) gone m h =
    rw (positive n m.0)
      (ends rounds (drop n (b ∷ rest)) _ m.1 (omega (arith, length-drop n (b ∷ rest), h, m.0)))
  where
    positive : (n : ℕ) → 1 ≤ n → (n == 0) ≡ false
    positive n h = ground arith
ends (_ ∷ rounds) (b ∷ rest) gone m h = absurd m

-- The loop ends: where every round moves a byte, as many rounds as there are bytes are enough for the whole block.
pub transfer_ends :
    (rounds : List Round) (block : Bytes)
    → MovesOn rounds
    → length block ≤ length rounds
    → (transfer rounds block []).0 ≡ some success
transfer_ends rounds block m h = ends rounds block [] m h
