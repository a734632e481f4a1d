-- ===== src/Daemon/LiteTlv/Tests.antt =====
-- An Endpoint Declaration behind a message of 54 bytes.
use esp_ptp.Base.{◌+◌, true, ◌≡◌, arith}
use esp_ptp.Base.Bytes.{Bytes, zeros}
use esp_ptp.Daemon.LiteTlv.{append_endpoint_decl, has_endpoint_decl, has-append_endpoint_decl}

abbrev buffer : Bytes
buffer = zeros 256

has-append_endpoint_decl_example :
    let (m', n) = append_endpoint_decl buffer 54 in has_endpoint_decl m' (54 + n) 54 ≡ true
has-append_endpoint_decl_example = has-append_endpoint_decl buffer 54 (omega arith)
