-- ===== src/Echo/Scenarios.antt =====
-- internal/echo: an engine with two queues, one target on each family, and a sum that only counts bytes.
use flameping.Prelude.{
  ℕ, ◌-◌, ◌≡◌, refl, true, false, ltb, List, [], ◌∷◌, ◌++◌, Option, some, length, arith,
}
use flameping.Prelude.Int.{pos}
use flameping.Scheduler.{Job}
use flameping.Echo.{EchoTarget, Setup, Engine}
use flameping.Echo.Payload.{Identity, encode_payload, decode_payload, head_of, put_bytes}
use flameping.Echo.Payload.RoundTrip.{IsSendable, decode_payload-encode_payload}
use flameping.Echo.Loops.{Luck, Input, submit, move, send, note, pass, drain, run}
use flameping.Echo.Accounts.{Balances, run-Balances}
use flameping.Echo.Families.{Sorts, run-Sorts}
use flameping.Echo.Replies.{receive, receive-encode_payload}

abbrev counting_mac : List ℕ → List ℕ → List ℕ
counting_mac secret bytes =
    length bytes
    ∷ 0
    ∷ 0
    ∷ 0
    ∷ 0
    ∷ 0
    ∷ 0
    ∷ 0
    ∷ 0
    ∷ 0
    ∷ 0
    ∷ 0
    ∷ 0
    ∷ 0
    ∷ 0
    ∷ 0
    ∷ 0
    ∷ 0
    ∷ 0
    ∷ 0
    ∷ 0
    ∷ 0
    ∷ 0
    ∷ 0
    ∷ 0
    ∷ 0
    ∷ 0
    ∷ 0
    ∷ 0
    ∷ 0
    ∷ 0
    ∷ 0
    ∷ []

abbrev secret : List ℕ
secret = 1 ∷ 2 ∷ 3 ∷ 4 ∷ 5 ∷ 6 ∷ 7 ∷ 8 ∷ 9 ∷ 10 ∷ 11 ∷ 12 ∷ 13 ∷ 14 ∷ 15 ∷ 16 ∷ []

abbrev run_id : List ℕ
run_id = 8 ∷ 7 ∷ 6 ∷ 5 ∷ 4 ∷ 3 ∷ 2 ∷ 1 ∷ []

-- Addresses below 10 are of the first family, and 0 is no address.
abbrev setup : Setup
setup = record {
  is_valid = λ a. ltb 0 a;
  is_4 = λ a. ltb a 10;
  send_queue = 2;
  run_id = run_id;
  secret = secret;
  mac = counting_mac;
  watched = true;
}

abbrev idle : Engine
idle = record {
  current = [];
  v4 = record { is_open = true; failed = false; jobs = [] };
  v6 = record { is_open = true; failed = false; jobs = [] };
  gaps = [];
  sequence = 0;
  inputs_closed = false;
  done = false;
}

abbrev job : ℕ → ℕ → Job (Option EchoTarget)
job id endpoint = record {
  target = record {
    id = id;
    interval = 1000;
    value = some (record { id = id; endpoint = endpoint; timeout = 500 });
  };
  scheduled_at = 100;
}

abbrev luck : Luck
luck = record { reserves = true; sent_at = 101; offset = 101; writes = true; publishes = true }

-- Both targets are submitted; the second one's address then moves to the other family.
abbrev inputs : List Input
inputs =
    submit (job 1 4)
    ∷ submit (job 2 40)
    ∷ send true luck
    ∷ move 2 5
    ∷ note (record { target_id = 1; first_scheduled = 90; interval = 1000; missed_count = 1 })
    ∷ send false luck
    ∷ drain
    ∷ pass true
    ∷ []

run-Balances_example : Balances 2 100 idle (run setup inputs idle)
run-Balances_example =
    run-Balances setup 2 100 inputs idle (refl, (refl, (tt, (tt, (tt, (tt, (tt, (tt, tt))))))))
      (tt, tt)

run-Sorts_example : Sorts setup (run setup inputs idle)
run-Sorts_example = run-Sorts setup inputs idle (tt, tt)

abbrev identity : Identity
identity = record { run_id = run_id; sequence = 1; send_offset = pos 101; timeout = pos 500 }

identity-IsSendable : IsSendable identity
identity-IsSendable = record {
  run = refl;
  counted = omega arith;
  offset = ground arith;
  offset_fits = omega arith;
  patient = ground arith;
  timeout_fits = omega arith;
}

decode_payload-encode_payload_example :
    (payload : List ℕ) × ((encode_payload counting_mac identity secret ≡ some payload)
      × (length payload ≡ 56)
      × (decode_payload counting_mac payload secret ≡ some identity))
decode_payload-encode_payload_example =
    decode_payload-encode_payload counting_mac (λ key bytes. refl) identity secret
      identity-IsSendable (omega arith)

abbrev payload : List ℕ
payload = head_of identity ++ (40 ∷ 0 ∷ 0 ∷ 0 ∷ 0 ∷ 0 ∷ 0 ∷ 0 ∷ 0 ∷ 0 ∷ 0 ∷ 0 ∷ 0 ∷ 0 ∷ 0 ∷ 0 ∷ [])

payload_written : encode_payload counting_mac identity secret ≡ some payload
unfolding encode_payload head_of put_bytes
payload_written = refl

receive-encode_payload_example :
    receive setup 900 (record { payload = payload; source = 4; icmp_type = 0; icmp_code = 0 })
    ≡ some (record {
      sequence = 1;
      send_offset = pos 101;
      timeout = pos 500;
      rtt = 900 - 101;
      late = ltb 500 (900 - 101);
      responder = 4;
      icmp_type = 0;
      icmp_code = 0;
    })
receive-encode_payload_example =
    receive-encode_payload setup 1 101 500 900 payload 4 0 0 (λ key bytes. refl) (omega arith) refl
      (omega arith) (omega arith) (omega arith) (omega arith) (omega arith) payload_written
