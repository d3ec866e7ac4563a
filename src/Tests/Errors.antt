-- ===== src/Tests/Errors.antt =====
-- Errors that differ in what is not copied, a 404 and a bare TypeError.
use key_cloak_sdk.Common.{refl, none, some, lit, ℕ, ◌≡◌, true, Option, ◌↔◌}
use key_cloak_sdk.Errors.{
  object, error, type_error, no_cause, SdkError, Facts, sdk_error, ErrorClass,
}
use key_cloak_sdk.Errors.Scrubbing.{SameVisible, sdk_error_hides}
use key_cloak_sdk.Transport.{is_transport_error}
use key_cloak_sdk.Transport.Laws.{IsTransport, is_transport_error_iff}
use key_cloak_sdk.Values.Json.{string, undefined}

abbrev facts : ErrorClass → Option ℕ → Facts
facts class status = record {
  class = class;
  name = string (lit "Error");
  message = lit "failed";
  code = undefined;
  stack = none;
  status = status;
  response_data = undefined;
}

abbrev missing : ℕ
missing = 404

abbrev visible : SameVisible (facts error none) (facts error (some 500))
visible = record {
  kind = refl;
  syntax = refl;
  name = refl;
  code = refl;
  message = λ h. refl;
  stack = λ h. refl;
}

sdk_error_hides_example :
    sdk_error SdkError.auth (lit "no") (object (facts error none) no_cause)
    ≡ sdk_error SdkError.auth (lit "no") (object (facts error (some 500)) no_cause)
sdk_error_hides_example =
    sdk_error_hides SdkError.auth (lit "no") (object (facts error none) no_cause)
      (object (facts error (some 500)) no_cause) (visible, tt)

is_transport_error_iff_example :
    (is_transport_error (object (facts type_error none) no_cause) ≡ true)
    ↔ IsTransport (object (facts type_error none) no_cause)
is_transport_error_iff_example = is_transport_error_iff (object (facts type_error none) no_cause)
