-- ===== src/Tests/RtpSession.antt =====
-- A session of RTP with one receiver, on concrete packets. The floats are counted in whole numbers.
use ezk.Common.{ℕ, ◌+◌, ◌-◌, ◌*◌, ◌/◌, ◌%◌, ◌^◌, ◌≡◌, refl, [], ◌∷◌, none, some, arith}
use ezk.Rtp.Packet.{RtpPacket}
use ezk.Rtp.Jitter.{default}
use ezk.Rtp.Session.{
  Floats, LastReceived, ReceiverState, RtpSession, recv_rtp, generate_rtcp_report,
}
use ezk.Rtp.Session.Receivers.{IsValid, recv_rtp-IsValid}
use ezk.Rtp.Session.SameTimestamp.{recv_rtp_same_timestamp}
use ezk.Rtp.Session.Reports.{Reports, generate_rtcp_report-Reports}

abbrev floats : Floats
floats = record {
  Estimate = ℕ;
  no_jitter = 0;
  update_jitter = λ jitter d. jitter + d / 16 - jitter / 16;
  jitter_as_u32 = λ jitter. jitter % 2 ^ 32;
  rtp_units = λ duration rate. duration * rate / 1000000000;
  rtp_units64 = λ duration rate. duration * rate / 1000000000;
  nanoseconds = λ units rate. units * 1000000000 / rate;
  fraction_lost = λ lost all. lost * 255 / all;
  delay_units = λ duration. duration * 65536 / 1000000000 % 2 ^ 32;
  to_fixed_u32 = λ timestamp. timestamp / 2 ^ 16 % 2 ^ 32;
}

abbrev packet : ℕ → ℕ → ℕ → RtpPacket
packet ssrc n timestamp = record {
  pt = 96;
  sequence_number = n;
  ssrc = ssrc;
  timestamp = timestamp;
  extensions = record { mid = none };
  payload = 1 ∷ 2 ∷ [];
}

abbrev last : LastReceived
last = record { at = 1000000; timestamp = 3000; sequence_number = 10 }

abbrev receiver : ReceiverState floats
receiver = record {
  ssrc = 7;
  jitter_buffer = record default { lost = 2; received = 8 };
  last_rtp_received = some last;
  jitter = 0;
  last_sr = some 500000;
  total_lost = 1;
}

abbrev session : RtpSession floats
session = record { session_ssrc = 1; clock_rate = 90000; sender = none; receiver = receiver ∷ [] }

recv_rtp-IsValid_example : IsValid floats (recv_rtp floats 2000000 (packet 8 5 100) session)
recv_rtp-IsValid_example =
    recv_rtp-IsValid floats 2000000 (packet 8 5 100) session
      (record { distinct = (tt, tt); bounded = omega arith })

-- The packets of a frame.
recv_rtp_same_timestamp_example :
    recv_rtp floats 2000001 (packet 7 12 6000) (recv_rtp floats 2000000 (packet 7 11 6000) session)
    ≡ recv_rtp floats 2000000 (packet 7 11 6000) session
recv_rtp_same_timestamp_example =
    recv_rtp_same_timestamp floats 2000000 2000001 (packet 7 11 6000) (packet 7 12 6000) session
      refl refl (omega arith)

generate_rtcp_report-Reports_example :
    (let (report, after) = generate_rtcp_report floats 3000000 session in
      Reports floats session report after)
generate_rtcp_report-Reports_example = generate_rtcp_report-Reports floats 3000000 session
