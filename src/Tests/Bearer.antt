-- ===== src/Tests/Bearer.antt =====
-- A token with a space before it.
use key_cloak_sdk.Bearer.{sendable_bearer}
use key_cloak_sdk.Bearer.Laws.{Carries, sendable_bearer_iff}
use key_cloak_sdk.Common.{lit, ◌≡◌, ◌↔◌}
use key_cloak_sdk.Outcome.{ok}

sendable_bearer_iff_example :
    (sendable_bearer (lit " ab") ≡ ok (lit "ab")) ↔ Carries (lit " ab") (lit "ab")
sendable_bearer_iff_example = sendable_bearer_iff (lit " ab") (lit "ab")
