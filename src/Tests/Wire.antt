-- ===== src/Tests/Wire.antt =====
-- internal/wire/envelope.go: instances of the theorems.
use i_drac_telemetry_referen.Common.{◌≡◌, some}
use i_drac_telemetry_referen.Json.{arr, nil}
use i_drac_telemetry_referen.Wire.{Envelope, encode_envelope, decode_envelope, status_ok}
use i_drac_telemetry_referen.Wire.RoundTrip.{decode-encode_envelope}

abbrev producers : Envelope
producers = record {
  type = "getproducers";
  correlation_id = "7f";
  reply_to = "";
  status = status_ok;
  error = "";
  payload = some (arr nil);
}

decode-encode_envelope_example : decode_envelope (encode_envelope producers) ≡ some producers
decode-encode_envelope_example = decode-encode_envelope producers
