-- ===== src/PaymentPolicy.antt =====
-- backend/src/payment-policy.ts
use ki_ticket.Base.{String, Bool, true, false, Option, none, some}
use ki_ticket.Entities.{PaymentState, ReservationState}

-- `PaymentOutcome` of backend/src/dto.ts
pub data PaymentOutcome : Type 0 where
  success failure timeout : PaymentOutcome

pub record PaymentTransition : Type 0 where
  pub outcome : PaymentOutcome
  pub payment_state : PaymentState
  pub reservation_state : ReservationState
  pub failure_reason : Option String

-- The three results of `determinePaymentTransition`.
abbrev pub transition_for : PaymentOutcome → PaymentTransition
transition_for PaymentOutcome.success = record {
  outcome = PaymentOutcome.success;
  payment_state = PaymentState.success;
  reservation_state = ReservationState.confirmed;
  failure_reason = none;
}
transition_for PaymentOutcome.timeout = record {
  outcome = PaymentOutcome.timeout;
  payment_state = PaymentState.timeout;
  reservation_state = ReservationState.expired;
  failure_reason = some "reservation-expired";
}
transition_for PaymentOutcome.failure = record {
  outcome = PaymentOutcome.failure;
  payment_state = PaymentState.failed;
  reservation_state = ReservationState.cancelled;
  failure_reason = some "gateway-declined";
}

abbrev pub effective : PaymentOutcome → Bool → PaymentOutcome
effective requested true = PaymentOutcome.timeout
effective requested false = requested

unfoldable pub determine_payment_transition : PaymentOutcome → Bool → PaymentTransition
determine_payment_transition requested expired = transition_for (effective requested expired)
