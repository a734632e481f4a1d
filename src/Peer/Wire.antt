-- ===== src/Peer/Wire.antt =====
-- The message structures of ptp.h that a peer delay exchange reads, and struct timespec.
use esp_ptp.Base.{ℕ}
use esp_ptp.Base.Int.{ℤ, pos}
use esp_ptp.Base.Bytes.{Bytes, be16, zeros}

-- struct ptp_header_s
pub record Header : Type 0 where
  pub messagetype : ℕ
  pub version : ℕ
  pub messagelength : Bytes
  pub domain : ℕ
  pub reserved1 : ℕ
  pub flags : Bytes
  pub correction : Bytes
  pub reserved2 : Bytes
  pub sourceidentity : Bytes
  pub sourceportindex : Bytes
  pub sequenceid : Bytes
  pub controlfield : ℕ
  pub logmessageinterval : ℕ

-- struct ptp_delay_resp_s
pub record DelayResp : Type 0 where
  pub header : Header
  pub receivetimestamp : Bytes
  pub reqidentity : Bytes
  pub reqportindex : Bytes

-- struct ptp_delay_resp_follow_up_s
pub record FollowUp : Type 0 where
  pub header : Header
  pub origintimestamp : Bytes
  pub reqidentity : Bytes
  pub reqportindex : Bytes

-- struct timespec
pub record Timespec : Type 0 where
  pub tv_sec : ℤ
  pub tv_nsec : ℤ

-- Zeroed structures.
abbrev pub no_header : Header
no_header = record {
  messagetype = 0;
  version = 0;
  messagelength = zeros 2;
  domain = 0;
  reserved1 = 0;
  flags = zeros 2;
  correction = zeros 8;
  reserved2 = zeros 4;
  sourceidentity = zeros 8;
  sourceportindex = zeros 2;
  sequenceid = zeros 2;
  controlfield = 0;
  logmessageinterval = 0;
}

abbrev pub no_response : DelayResp
no_response = record {
  header = no_header;
  receivetimestamp = zeros 10;
  reqidentity = zeros 8;
  reqportindex = zeros 2;
}

abbrev pub no_follow_up : FollowUp
no_follow_up = record {
  header = no_header;
  origintimestamp = zeros 10;
  reqidentity = zeros 8;
  reqportindex = zeros 2;
}

abbrev pub no_time : Timespec
no_time = record { tv_sec = pos 0; tv_nsec = pos 0 }

-- The sequence number of a header, as ptp_peer_response reads it.
abbrev pub sequence_of : Header → ℕ
sequence_of h = be16 h.sequenceid 0
