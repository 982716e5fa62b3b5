-- ===== src/Dataplane/Single.antt =====
-- A message that fits in one packet, in the write loop of src/mb-daemon.c.
use midi_ble_rt.Base.{
  false, ℕ, zero, suc, ◌≤◌, ◌≡◌, refl, ◌∙◌, ap, ap₂, min, Bool, true, not, List, [], ◌∷◌, length,
  take, drop, replicate, if◌then◌else◌, arith,
}
use midi_ble_rt.BleMidi.RoundTrip.{frame, make_packet_lem}
use midi_ble_rt.Dataplane.{
  Fence, Outside, Outcome, fence_accept, write_packet, write_rounds, dropped, sent_first,
  packet_max, max_midi_per_packet,
}
use midi_ble_rt.Dataplane.Writing.{Smooth}

module _ {A : Type 0} where
  take_whole : (n : ℕ) (xs : List A) → n ≡ length xs → take n xs ≡ xs
  take_whole zero [] h = refl
  take_whole zero (x ∷ xs) h = absurd (omega arith)
  take_whole (suc n) [] h = absurd (omega arith)
  take_whole (suc n) (x ∷ xs) h = ap (λ l. x ∷ l) (take_whole n xs (omega arith))

  drop_whole : (n : ℕ) (xs : List A) → n ≡ length xs → drop n xs ≡ []
  drop_whole zero [] h = refl
  drop_whole zero (x ∷ xs) h = absurd (omega arith)
  drop_whole (suc n) [] h = absurd (omega arith)
  drop_whole (suc n) (x ∷ xs) h = drop_whole n xs (omega arith)

one_round :
    (accepted made written : Bool) (packet : List ℕ) (n : ℕ) (o : Outcome)
    → accepted ≡ true
    → made ≡ true
    → written ≡ true
    → (if not accepted
        then dropped false
        else if not made
        then dropped false
        else if not written
        then dropped true
        else sent_first packet n o).sent
      ≡ packet ∷ o.sent
one_round accepted made written packet n o a m w = rw (a, m, w) refl

no_more :
    (fuel : ℕ) (outside : ℕ → Outside) (e t : ℕ) → (write_rounds fuel outside [] e t).sent ≡ []
unfolding write_rounds
no_more zero outside e t = refl
no_more (suc fuel) outside e t = refl

write_rounds-single :
    (fuel : ℕ) (outside : ℕ → Outside) (b : ℕ) (midi : List ℕ) (e t : ℕ)
    → length (b ∷ midi) ≤ max_midi_per_packet
    → Smooth outside e t
    → (write_rounds (suc fuel) outside (b ∷ midi) e t).sent
      ≡ frame (outside 0).timestamp_13bit (b ∷ midi) ∷ []
unfolding write_rounds
write_rounds-single fuel outside b midi e t short smooth =
    let rest = b ∷ midi in
    let n = min (length rest) max_midi_per_packet in
    let whole : n ≡ length rest = omega (arith, short) in
    let all : take n rest ≡ rest = take_whole n rest whole in
    let size : length (take n rest) ≡ length rest = ap length all in
    let (made, len, out) =
      make_packet_lem (outside 0).timestamp_13bit (take n rest) (replicate packet_max 0)
        (omega (arith, size)) (omega (arith, size, short)) (omega arith) in
    one_round _ _ _ _ n _ (smooth 0).0 made (smooth 0).1
    ∙ ap₂ (λ packet packets. packet ∷ packets) (out ∙ ap (frame (outside 0).timestamp_13bit) all)
        (ap (λ l. (write_rounds fuel (λ i. outside (suc i)) l e t).sent) (drop_whole n rest whole)
          ∙ no_more fuel (λ i. outside (suc i)) e t)

-- It is written in one packet, which holds it whole.
pub write_packet-single :
    (fence : Fence) (outside : ℕ → Outside) (b : ℕ) (midi : List ℕ) (e t : ℕ)
    → length (b ∷ midi) ≤ max_midi_per_packet
    → fence_accept fence e t ≡ true
    → Smooth outside e t
    → (write_packet fence true outside (b ∷ midi) e t).sent
      ≡ frame (outside 0).timestamp_13bit (b ∷ midi) ∷ []
unfolding write_packet
write_packet-single fence outside b midi e t short accepts smooth =
    rw accepts (write_rounds-single (length midi) outside b midi e t short smooth)
