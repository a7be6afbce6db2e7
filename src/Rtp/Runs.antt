-- ===== src/Rtp/Runs.antt =====
-- Runs of the RTP and RTCP headers.
use xiu.Prelude.{◌≡◌, refl, [], ◌∷◌, ◌++◌, ok, arith}
use xiu.Prelude.Words.{Bytes}
use xiu.Rtp.Header as Header
use xiu.Rtp.Header.{RtpHeader, marshal, unmarshal, unmarshal-marshal}
use xiu.Rtp.Report.{RtcpReceiverReport, marshal_report, unmarshal_report}
use xiu.Rtp.SenderRoundTrip as SenderRoundTrip
use xiu.Rtp.SenderRoundTrip.{unmarshal_sender-marshal_sender}
use xiu.Rtp.Bye as Bye
use xiu.Rtp.Bye.{RtcpBye, marshal_bye, unmarshal_bye, unmarshal_bye-marshal_bye}
use xiu.Rtp.App as App
use xiu.Rtp.App.{RtcpApp, marshal_app, unmarshal_app, unmarshal_app-marshal_app}
use xiu.Rtp.ReportRoundTrip as ReportRoundTrip
use xiu.Rtp.Sender.{RtcpSenderReport, marshal_sender, unmarshal_sender}
use xiu.Rtp.ReportRoundTrip.{unmarshal_report-marshal_report}

abbrev rtp_header : RtpHeader
rtp_header = record {
  version = 2;
  padding_flag = 1;
  extension_flag = 0;
  cc = 2;
  marker = 1;
  payload_type = 96;
  seq_number = 65535;
  timestamp = 0x89abcdef;
  ssrc = 0x10203040;
  csrcs = 7 ∷ 0xffffffff ∷ [];
}

rtp_header-IsValid : Header.IsValid rtp_header
rtp_header-IsValid = record {
  version = omega arith;
  padding_flag = omega arith;
  extension_flag = omega arith;
  cc = omega arith;
  marker = omega arith;
  payload_type = omega arith;
  seq_number = omega arith;
  timestamp = omega arith;
  ssrc = omega arith;
  csrcs = (omega arith, (omega arith, tt));
  count = refl;
}

unmarshal-marshal_example :
    (bs : Bytes) × (marshal rtp_header ≡ ok bs [])
    × (unmarshal (bs ++ 1 ∷ 2 ∷ []) ≡ ok rtp_header (1 ∷ 2 ∷ []))
unmarshal-marshal_example = unmarshal-marshal rtp_header (1 ∷ 2 ∷ []) rtp_header-IsValid

abbrev report : RtcpReceiverReport
report = record {
  header = record {
    version = 2;
    padding_flag = 0;
    report_count = 1;
    payload_type = 201;
    length_field = 7;
  };
  ssrc = 0x01020304;
  report_blocks =
      record {
        ssrc = 0xf1f2f3f4;
        fraction_lost = 12;
        cumutlative_num_of_packets_lost = 0xfffffe;
        extended_highest_seq_number = 70000;
        jitter = 33;
        lsr = 0x80000000;
        dlsr = 1;
      }
      ∷ [];
}

report-IsValid : ReportRoundTrip.IsValid report
report-IsValid = record {
  header = record {
    version = omega arith;
    padding_flag = omega arith;
    report_count = omega arith;
    length_field = omega arith;
  };
  ssrc = omega arith;
  blocks = (
    record {
      ssrc = omega arith;
      lost = omega arith;
      highest = omega arith;
      jitter = omega arith;
      lsr = omega arith;
      dlsr = omega arith;
    },
    tt,
  );
  count = refl;
}

unmarshal_report-marshal_report_example :
    (bs : Bytes) × (marshal_report report ≡ ok bs [])
    × (unmarshal_report (bs ++ 9 ∷ []) ≡ ok report (9 ∷ []))
unmarshal_report-marshal_report_example =
    unmarshal_report-marshal_report report (9 ∷ []) report-IsValid

abbrev sender : RtcpSenderReport
sender = record {
  header = report.header;
  ssrc = 0x01020304;
  ntp = 0xe1e2e3e4e5e6e7e8;
  rtp_timestamp = 90000;
  sender_packet_count = 10;
  sender_octet_count = 12000;
  report_blocks = report.report_blocks;
}

sender-IsValid : SenderRoundTrip.IsValid sender
sender-IsValid = record {
  header = report-IsValid.header;
  ssrc = omega arith;
  ntp = omega arith;
  rtp_timestamp = omega arith;
  sender_packet_count = omega arith;
  sender_octet_count = omega arith;
  blocks = report-IsValid.blocks;
  count = refl;
}

unmarshal_sender-marshal_sender_example :
    (bs : Bytes) × (marshal_sender sender ≡ ok bs [])
    × (unmarshal_sender (bs ++ 9 ∷ []) ≡ ok sender (9 ∷ []))
unmarshal_sender-marshal_sender_example =
    unmarshal_sender-marshal_sender sender (9 ∷ []) sender-IsValid

abbrev goodbye : RtcpBye
goodbye = record {
  header = record {
    version = 2;
    padding_flag = 0;
    report_count = 2;
    payload_type = 203;
    length_field = 3;
  };
  ssrss = 5 ∷ 0xfffffffe ∷ [];
  length_field = 3;
  reason = 98 ∷ 121 ∷ 101 ∷ [];
}

goodbye-IsValid : Bye.IsValid goodbye
goodbye-IsValid = record {
  header = record {
    version = omega arith;
    padding_flag = omega arith;
    report_count = omega arith;
    length_field = omega arith;
  };
  ssrss = (omega arith, (omega arith, tt));
  count = refl;
  reason = refl;
}

abbrev app : RtcpApp
app = record {
  header = record {
    version = 2;
    padding_flag = 1;
    report_count = 9;
    payload_type = 204;
    length_field = 1;
  };
  ssrc = 77;
  name = 120 ∷ 105 ∷ 117 ∷ 33 ∷ [];
  app_data = 1 ∷ 2 ∷ 3 ∷ 255 ∷ [];
}

app-IsValid : App.IsValid app
app-IsValid = record {
  header = record {
    version = omega arith;
    padding_flag = omega arith;
    report_count = omega arith;
    length_field = omega arith;
  };
  ssrc = omega arith;
  name = refl;
  app_data = refl;
}
