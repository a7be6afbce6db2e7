-- ===== src/Webrtc/Runs.antt =====
-- protocol/webrtc/src/rtp_queue.rs: examples. A packet is its sequence number.
use xiu.Prelude.{ℕ, ◌≡◌, refl, inr, [], ◌∷◌, some, none, map, ok, Succeeds, arith}
use xiu.Webrtc.RtpQueue.{RtpQueue, new_queue, write_queue, read_queue}
use xiu.Webrtc.Order.{read_all, write_all, read_all-write_all}
use xiu.Webrtc.Drained.{
  drained, Valid, write_queue-drained_lost, write_queue-drained_held, write_queue-Valid,
}

abbrev number : ℕ → ℕ
number n = n

-- Four packets over the wrap-around.
read_all-write_all_example :
    Succeeds
      (λ q. read_all number 4 q ≡ map some (65534 ∷ 65535 ∷ 0 ∷ 1 ∷ []))
      (write_all number (65534 ∷ 65535 ∷ 0 ∷ 1 ∷ []) (new_queue number 100))
read_all-write_all_example =
    read_all-write_all number 65534 65535 0 (1 ∷ []) 100 (omega arith)
      (refl, (refl, (refl, (refl, tt)))) (omega arith)

abbrev read_out : RtpQueue ℕ
read_out = drained number (new_queue number 100)

write_queue-drained_lost_example : write_queue number 65437 read_out ≡ ok tt read_out
write_queue-drained_lost_example =
    write_queue-drained_lost number 65437 (new_queue number 100) (inr (omega arith, omega arith))

write_queue-drained_held_example :
    write_queue number 5000 read_out
      ≡ ok tt (record read_out { bad_cache = 5000 ∷ []; bad_seq = 5001 })
    × (read_queue number (record read_out { bad_cache = 5000 ∷ []; bad_seq = 5001 })).0 ≡ none
write_queue-drained_held_example =
    write_queue-drained_held number 5000 (new_queue number 100) (omega arith) (omega arith)

write_queue-Valid_example :
    Succeeds (Valid number) (write_queue number 65437 (drained number (new_queue number 100)))
write_queue-Valid_example =
    write_queue-Valid number 65437 (drained number (new_queue number 100))
      (record { on_probation = omega arith; one_bad = omega arith }) (omega arith)
