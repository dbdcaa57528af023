-- ===== src/Checksum/Scenarios.antt =====
-- internal/trace/checksum.go: a probe from 192.0.2.1 to 198.51.100.7.
use flameping.Prelude.{ℕ, ◌≡◌, refl, List, [], ◌∷◌, true, some, arith}
use flameping.Checksum.{Addr, udp_checksum, paris_payload}
use flameping.Checksum.Words.{IsAddr}
use flameping.Checksum.Paris.{paris_payload_lem}

abbrev near : Addr
near = record { is_4 = true; bytes = 192 ∷ 0 ∷ 2 ∷ 1 ∷ [] }

abbrev far : Addr
far = record { is_4 = true; bytes = 198 ∷ 51 ∷ 100 ∷ 7 ∷ [] }

near-IsAddr : IsAddr near
near-IsAddr = record { sized = refl; small = ground arith }

far-IsAddr : IsAddr far
far-IsAddr = record { sized = refl; small = ground arith }

paris_payload_lem_example :
    (payload : List ℕ) × ((paris_payload near far 33434 33435 4660 ≡ some payload)
      × (udp_checksum near far 33434 33435 payload ≡ some 4660))
paris_payload_lem_example =
    paris_payload_lem near far 33434 33435 near-IsAddr far-IsAddr refl 4660 (omega arith)
      (omega arith)
