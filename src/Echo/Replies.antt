-- ===== src/Echo/Replies.antt =====
-- internal/echo/engine.go: `receiveLoop`, on one packet.
use flameping.Prelude.{
  ℕ, ◌-◌, ◌^◌, ◌≤◌, ◌<◌, ◌≡◌, Bool, not, ltb, if◌then◌else◌, List, Option, none, some, length,
  arith,
}
use flameping.Prelude.Int.{ℤ, pos, pos_part}
use flameping.Echo.{Setup}
use flameping.Echo.Payload.{Identity, is_equal, encode_payload, decode_payload}
use flameping.Echo.Payload.RoundTrip.{IsSendable, is_equal_refl, decode_payload-encode_payload}

pub record Packet : Type 0 where
  pub payload : List ℕ
  pub source : ℕ
  pub icmp_type : ℕ
  pub icmp_code : ℕ

-- The event of a reply; its probe left at `send_offset` after the engine's start, and `late` is the class.
pub record ReplyEvent : Type 0 where
  pub sequence : ℕ
  pub send_offset : ℤ
  pub timeout : ℤ
  pub rtt : ℕ
  pub late : Bool
  pub responder : ℕ
  pub icmp_type : ℕ
  pub icmp_code : ℕ

-- One round of `receiveLoop`: the event that is published, if any; `now` is the time since the start.
unfoldable pub receive : Setup → ℕ → Packet → Option ReplyEvent
receive setup now packet = elim (decode_payload setup.mac packet.payload setup.secret) [
  | none ↦ none
  | some id ↦
      let rtt = now - pos_part id.send_offset in
      if not (is_equal id.run_id setup.run_id)
      then none
      else if ltb now (pos_part id.send_offset)
      then none
      else some (record {
        sequence = id.sequence;
        send_offset = id.send_offset;
        timeout = id.timeout;
        rtt = rtt;
        late = ltb (pos_part id.timeout) rtt;
        responder = packet.source;
        icmp_type = packet.icmp_type;
        icmp_code = packet.icmp_code;
      })
]

-- A packet with the payload of a probe of this run, read no earlier than the probe left: receiveLoop
-- publishes a reply under the probe's sequence number, with the time since the probe left as its
-- round-trip time, and in the class of late ones exactly if that is more than the timeout. The conditions
-- are those under which a payload is read back, for the engine's secret, run id and sum.
pub receive-encode_payload :
    (setup : Setup) (sequence offset timeout now : ℕ) (payload : List ℕ) (source type code : ℕ)
    → ((secret bytes : List ℕ) → length (setup.mac secret bytes) ≡ 32)
    → 16 ≤ length setup.secret
    → length setup.run_id ≡ 8
    → sequence < 2 ^ 63
    → 0 < timeout
    → timeout < 2 ^ 63
    → offset ≤ now
    → now < 2 ^ 63
    → encode_payload setup.mac
        (record {
          run_id = setup.run_id;
          sequence = sequence;
          send_offset = pos offset;
          timeout = pos timeout;
        })
        setup.secret
      ≡ some payload
    → receive setup now
        (record { payload = payload; source = source; icmp_type = type; icmp_code = code })
      ≡ some (record {
        sequence = sequence;
        send_offset = pos offset;
        timeout = pos timeout;
        rtt = now - offset;
        late = ltb timeout (now - offset);
        responder = source;
        icmp_type = type;
        icmp_code = code;
      })
unfolding receive
receive-encode_payload setup sequence offset timeout now payload source type code sized long run
      counted patient fits past small wrote =
    let id : Identity = record {
      run_id = setup.run_id;
      sequence = sequence;
      send_offset = pos offset;
      timeout = pos timeout;
    } in
    let ok : IsSendable id = record {
      run = run;
      counted = omega (arith, counted);
      offset = ground arith;
      offset_fits = omega (arith, past, small);
      patient = ground (arith, patient);
      timeout_fits = omega (arith, fits);
    } in
    let (payload', (wrote', size, back)) =
      decode_payload-encode_payload setup.mac sized id setup.secret ok long in
    let read : decode_payload setup.mac payload setup.secret ≡ some id =
      ground (arith, wrote, wrote', back) in
    rw (receive, read) (ground (arith, past, is_equal_refl setup.run_id))
