-- ===== src/Rtp/Session.antt =====
-- media/rtp/src/session/mod.rs. An instant is a number of nanoseconds. The arithmetic of floats is
-- the parameter `floats`.
pub mod Receivers
pub mod Reports
pub mod SameTimestamp
use ezk.Common.{
  ℕ, ◌+◌, ◌-◌, ◌*◌, ◌%◌, ◌^◌, List, [], ◌∷◌, ◌++◌, Option, none, some, length, find, ltb, ◌==◌,
  if◌then◌else◌,
}
use ezk.Rtp.Packet.{RtpPacket}
use ezk.Rtp.Counter.{abs_diff}
use ezk.Rtp.Counter.ExtendedRtpTimestamp
use ezk.Rtp.Counter.ExtendedSequenceNumber
use ezk.Rtp.Jitter
use ezk.Rtp.Jitter.{JitterBuffer, Popped, returns, panics}

pub record Floats : Type 1 where
  pub Estimate : Type 0
  pub no_jitter : Estimate
  -- `jitter + (d.abs() - jitter) / 16.`
  pub update_jitter : Estimate → ℕ → Estimate
  pub jitter_as_u32 : Estimate → ℕ
  -- The seconds of a duration times the clock rate, as an integer.
  pub rtp_units : ℕ → ℕ → ℕ
  -- The same in double precision, to 64 bits.
  pub rtp_units64 : ℕ → ℕ → ℕ
  -- The nanoseconds of so many units of the clock rate.
  pub nanoseconds : ℕ → ℕ → ℕ
  -- `(lost as f64 / (received + lost) as f64) * 255.0` as u32.
  pub fraction_lost : ℕ → ℕ → ℕ
  -- The seconds of a duration times 65536.
  pub delay_units : ℕ → ℕ
  -- The middle bits of a timestamp of NTP.
  pub to_fixed_u32 : ℕ → ℕ

-- When the last packet came, with its extended timestamp and sequence number.
pub record LastReceived : Type 0 where
  pub at : ℕ
  pub timestamp : ℕ
  pub sequence_number : ℕ

pub record SenderState : Type 0 where
  pub ntp_timestamp : ℕ
  pub rtp_timestamp : ℕ
  pub sender_pkg_count : ℕ
  pub sender_octet_count : ℕ

module _ (floats : Floats) where
  open floats use {
    Estimate, no_jitter, update_jitter, jitter_as_u32, rtp_units, rtp_units64, nanoseconds,
    fraction_lost, delay_units, to_fixed_u32,
  }

  pub record ReceiverState : Type 0 where
    pub ssrc : ℕ
    pub jitter_buffer : JitterBuffer
    pub last_rtp_received : Option LastReceived
    pub jitter : Estimate
    pub last_sr : Option ℕ
    pub total_lost : ℕ

  pub record RtpSession : Type 0 where
    pub session_ssrc : ℕ
    pub clock_rate : ℕ
    pub sender : Option SenderState
    pub receiver : List ReceiverState

  unfoldable pub new : ℕ → ℕ → RtpSession
  new ssrc clock_rate = record {
    session_ssrc = ssrc;
    clock_rate = clock_rate;
    sender = none;
    receiver = [];
  }

  abbrev sender_or_new : Option SenderState → SenderState
  sender_or_new none = record {
    ntp_timestamp = 0;
    rtp_timestamp = 0;
    sender_pkg_count = 0;
    sender_octet_count = 0;
  }
  sender_or_new (some s) = s

  -- The counters are `u32`; `now` is the clock of NTP.
  unfoldable pub send_rtp : ℕ → RtpPacket → RtpSession → RtpSession
  unfolding ExtendedRtpTimestamp.guess_extended
  send_rtp now packet session =
      let s = sender_or_new session.sender in
      record session {
        sender = some (record {
          ntp_timestamp = now;
          rtp_timestamp = ExtendedRtpTimestamp.guess_extended s.rtp_timestamp packet.timestamp;
          sender_pkg_count = (s.sender_pkg_count + 1) % 2 ^ 32;
          sender_octet_count = (s.sender_octet_count + length packet.payload) % 2 ^ 32;
        });
      }

  -- A receiver that was just made.
  unfoldable pub new_receiver : ℕ → ReceiverState
  new_receiver ssrc = record {
    ssrc = ssrc;
    jitter_buffer = Jitter.default;
    last_rtp_received = none;
    jitter = no_jitter;
    last_sr = none;
    total_lost = 0;
  }

  -- The packet is put into the buffer under its extended timestamp and sequence number.
  unfoldable pub store : ℕ → ℕ → ℕ → RtpPacket → ReceiverState → ReceiverState
  unfolding Jitter.push
  store now timestamp sequence_number packet r = record r {
    last_rtp_received =
        some (record { at = now; timestamp = timestamp; sequence_number = sequence_number });
    jitter_buffer = Jitter.push r.jitter_buffer timestamp sequence_number packet;
  }

  -- `a` is the time since the last packet, and the other difference may be negative; `b` is taken
  -- to the other side.
  unfoldable pub updated_jitter : ℕ → LastReceived → ℕ → RtpPacket → Estimate → Estimate
  unfolding abs_diff ExtendedRtpTimestamp.truncated
  updated_jitter now last clock_rate packet jitter =
      let a = rtp_units (now - last.at) clock_rate in
      update_jitter jitter
        (abs_diff (a + ExtendedRtpTimestamp.truncated last.timestamp) packet.timestamp)

  abbrev pub receive_after : ℕ → ℕ → RtpPacket → ReceiverState → Option LastReceived → ReceiverState
  unfolding store updated_jitter
  receive_after now clock_rate packet r none =
      store now packet.timestamp packet.sequence_number packet r
  receive_after now clock_rate packet r (some last) =
      let timestamp = ExtendedRtpTimestamp.guess_extended last.timestamp packet.timestamp in
      let sequence_number =
        ExtendedSequenceNumber.guess_extended last.sequence_number packet.sequence_number in
      if ltb last.timestamp timestamp
      then store now timestamp sequence_number packet
          (record r { jitter = updated_jitter now last clock_rate packet r.jitter })
      else r

  unfoldable pub receive : ℕ → ℕ → RtpPacket → ReceiverState → ReceiverState
  unfolding store updated_jitter
  receive now clock_rate packet r = receive_after now clock_rate packet r r.last_rtp_received

  -- The first receiver of the source is changed.
  unfoldable pub change_first :
      ℕ → (ReceiverState → ReceiverState) → List ReceiverState → List ReceiverState
  change_first ssrc f [] = []
  change_first ssrc f (r ∷ receivers) =
      let rest = change_first ssrc f receivers in
      if r.ssrc == ssrc then f r ∷ receivers else r ∷ rest

  abbrev pub receive_found : ℕ → RtpPacket → RtpSession → Option ReceiverState → RtpSession
  unfolding receive change_first new_receiver
  receive_found now packet session (some r) = record session {
    receiver = change_first packet.ssrc (receive now session.clock_rate packet) session.receiver;
  }
  receive_found now packet session none =
      if ltb 4096 (length session.receiver) then session else record session {
        receiver =
            session.receiver
            ++ (receive now session.clock_rate packet (new_receiver packet.ssrc) ∷ []);
      }

  unfoldable pub recv_rtp : ℕ → RtpPacket → RtpSession → RtpSession
  unfolding receive change_first new_receiver
  recv_rtp now packet session =
      receive_found now packet session (find (λ r. r.ssrc == packet.ssrc) session.receiver)

  -- `map_instant_to_rtp_timestamp`: an instant before the reference is a difference to subtract,
  -- and a negative sum is cast to 64 bits.
  unfoldable pub map_instant_to_rtp_timestamp : ℕ → ℕ → ℕ → ℕ → ℕ
  map_instant_to_rtp_timestamp reference_instant reference_timestamp clock_rate instant =
      if ltb instant reference_instant
      then (reference_timestamp + 2 ^ 64 - rtp_units (reference_instant - instant) clock_rate)
        % 2 ^ 64
      else (reference_timestamp + rtp_units (instant - reference_instant) clock_rate) % 2 ^ 64

  -- A packet, if there is one, and the receivers after it; `popped_panics` is a panic of the buffer.
  pub data PoppedRtp : Type 0 where
    popped : Option RtpPacket → List ReceiverState → PoppedRtp
    popped_panics : PoppedRtp

  abbrev behind : ReceiverState → PoppedRtp → PoppedRtp
  behind r (popped packet receivers) = popped packet (r ∷ receivers)
  behind r popped_panics = popped_panics

  abbrev after_pop : ReceiverState → List ReceiverState → PoppedRtp → Popped → PoppedRtp
  after_pop r receivers later (returns none b) = behind (record r { jitter_buffer = b }) later
  after_pop r receivers later (returns (some packet) b) =
      popped (some packet) (record r { jitter_buffer = b } ∷ receivers)
  after_pop r receivers later panics = popped_panics

  abbrev pop_receiver :
      ℕ → ℕ → ReceiverState → List ReceiverState → PoppedRtp → Option LastReceived → PoppedRtp
  unfolding map_instant_to_rtp_timestamp Jitter.pop
  pop_receiver clock_rate pop_earliest r receivers later none = behind r later
  pop_receiver clock_rate pop_earliest r receivers later (some last) = after_pop r receivers later (
      Jitter.pop r.jitter_buffer
        (map_instant_to_rtp_timestamp last.at last.timestamp clock_rate pop_earliest))

  unfoldable pub pop_receivers : ℕ → ℕ → List ReceiverState → PoppedRtp
  unfolding map_instant_to_rtp_timestamp Jitter.pop
  pop_receivers clock_rate pop_earliest [] = popped none []
  pop_receivers clock_rate pop_earliest (r ∷ receivers) =
      let later = pop_receivers clock_rate pop_earliest receivers in
      pop_receiver clock_rate pop_earliest r receivers later r.last_rtp_received

  -- `DEFAULT_JITTERBUFFER_LENGTH`, in nanoseconds.
  abbrev pub default_jitterbuffer_length : ℕ
  default_jitterbuffer_length = 100000000

  abbrev pub length_or_default : Option ℕ → ℕ
  length_or_default none = default_jitterbuffer_length
  length_or_default (some n) = n

  abbrev pub with_receivers : RtpSession → PoppedRtp → Option (Option RtpPacket × RtpSession)
  with_receivers session (popped packet receivers) =
      some (packet, record session { receiver = receivers })
  with_receivers session popped_panics = none

  unfoldable pub pop_rtp : ℕ → Option ℕ → RtpSession → Option (Option RtpPacket × RtpSession)
  unfolding pop_receivers
  pop_rtp now jitter_buffer_length session = with_receivers session (
      pop_receivers session.clock_rate (now - length_or_default jitter_buffer_length)
        session.receiver)

  -- `recv_rtcp` on a sender report of the source.
  unfoldable pub recv_sender_report : ℕ → ℕ → RtpSession → RtpSession
  unfolding change_first
  recv_sender_report now ssrc session = record session {
    receiver = change_first ssrc (λ r. record r { last_sr = some now }) session.receiver;
  }

  -- The fields that `generate_rtcp_report` gives to the crate rtcp-types.
  pub record ReportBlock : Type 0 where
    pub block_ssrc : ℕ
    pub block_fraction_lost : ℕ
    pub cumulative_lost : ℕ
    pub extended_sequence_number : ℕ
    pub interarrival_jitter : ℕ
    pub last_sender_report : ℕ
    pub delay_since_last_sender_report : ℕ

  abbrev sr_fields : ℕ → Option ℕ → ℕ × ℕ
  sr_fields now none = (0, 0)
  sr_fields now (some last_sr) = (to_fixed_u32 last_sr, delay_units (now - last_sr))

  abbrev last_sequence : Option LastReceived → ℕ
  last_sequence none = 0
  last_sequence (some last) = last.sequence_number

  unfoldable pub report_block : ℕ → ReceiverState → ReportBlock
  report_block now r =
      let (last_sr, delay) = sr_fields now r.last_sr in
      let b = r.jitter_buffer in
      record {
        block_ssrc = r.ssrc;
        block_fraction_lost = fraction_lost b.lost (b.received + b.lost) % 2 ^ 8;
        cumulative_lost = (r.total_lost + b.lost) % 2 ^ 32;
        extended_sequence_number = last_sequence r.last_rtp_received % 2 ^ 32;
        interarrival_jitter = jitter_as_u32 r.jitter;
        last_sender_report = last_sr;
        delay_since_last_sender_report = delay;
      }

  -- What the report leaves: the losses are added up, and the counters of the buffer start again.
  unfoldable pub reset_counters : ReceiverState → ReceiverState
  reset_counters r = record r {
    total_lost = r.total_lost + r.jitter_buffer.lost;
    jitter_buffer = record r.jitter_buffer { lost = 0; received = 0 };
  }

  unfoldable pub report_all : ℕ → List ReceiverState → List ReportBlock × List ReceiverState
  unfolding report_block reset_counters
  report_all now [] = ([], [])
  report_all now (r ∷ receivers) =
      let (blocks, rest) = report_all now receivers in
      (report_block now r ∷ blocks, reset_counters r ∷ rest)

  -- A sender report, with its timestamp and counts, or a receiver report.
  pub data Report : Type 0 where
    sender_report : ℕ → ℕ → ℕ → ℕ → List ReportBlock → Report
    receiver_report : List ReportBlock → Report

  -- What is added to the timestamp of the last packet that was sent: the time since then is
  -- multiplied by the clock rate before it is turned into units of the clock rate.
  abbrev rtp_offset : ℕ → ℕ → SenderState → ℕ
  rtp_offset clock_rate now s = rtp_units64 (clock_rate * (now - s.ntp_timestamp)) clock_rate

  abbrev pub report_of : ℕ → ℕ → Option SenderState → List ReportBlock → Report
  report_of clock_rate now none blocks = receiver_report blocks
  report_of clock_rate now (some s) blocks =
      sender_report now ((s.rtp_timestamp + rtp_offset clock_rate now s) % 2 ^ 32)
        s.sender_pkg_count s.sender_octet_count blocks

  unfoldable pub generate_rtcp_report : ℕ → RtpSession → Report × RtpSession
  unfolding report_all
  generate_rtcp_report now session =
      let (blocks, receivers) = report_all now session.receiver in
      (
        report_of session.clock_rate now session.sender blocks,
        record session { receiver = receivers },
      )
