-- ===== src/Api/Webhooks.antt =====
-- The endpoint `receive_webhook` of api/routes.py with the exception handlers of main.py.
use payment_platform_quality.Prelude.{true, false, pos, ◌≡◌, ◌⊎◌}
use payment_platform_quality.Failure.{Failure, ok, err, integrity_error, overflow_error}
use payment_platform_quality.Database.Types.{EventPayload}
use payment_platform_quality.Database.Tables.{is_some}
use payment_platform_quality.Json.{Body, Builtins}
use payment_platform_quality.Webhooks.Parse.{parse_webhook_payload}
use payment_platform_quality.Webhooks.Consumer.{fits_integer, fits_projection, projection_of}
use payment_platform_quality.Api.Errors.{failure_response}

-- A row or a parameter of a statement that the database refuses, for an event.
abbrev pub IsRefusal : EventPayload → Failure → Type 0
IsRefusal e f =
    (f ≡ integrity_error)
    ⊎ ((f ≡ overflow_error)
        × ((fits_integer (pos e.aggregate_version) ≡ false)
            ⊎ (fits_projection (projection_of e.id e.payment) ≡ false)))

module _ (py : Builtins) where
  -- One of the handlers answers.
  abbrev pub IsHandled : Failure → Type 0
  IsHandled f = is_some (failure_response py f) ≡ true

  -- One of the handlers answers, or an integer of the event has overflowed.
  abbrev pub IsExpected : EventPayload → Failure → Type 0
  IsExpected e f =
      IsHandled f
      ⊎ ((f ≡ overflow_error)
          × ((fits_integer (pos e.aggregate_version) ≡ false)
              ⊎ (fits_projection (projection_of e.id e.payment) ≡ false)))

  -- What of a body overflows: a time on its way to UTC, or an integer on its way to a column.
  abbrev pub Overflows : Body → Type 0
  Overflows b =
      (parse_webhook_payload py b ≡ err overflow_error)
      ⊎ ((e : EventPayload) × (parse_webhook_payload py b ≡ ok e)
          × ((fits_integer (pos e.aggregate_version) ≡ false)
              ⊎ (fits_projection (projection_of e.id e.payment) ≡ false)))
