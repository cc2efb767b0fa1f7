-- ===== src/Routes/Refunds/Tests.antt =====
-- src/routes/refunds.rs: runs of the refunds.
use jecp_server.Prelude.{
  ◌*◌, ◌≡◌, refl, arith, Bool, true, false, none, some, [], ◌∷◌, Text, codes, any, ◌==◌, ok, err,
  text_eq,
}
use jecp_server.Routes.Refunds.{
  Refund, Transaction, RequestReadings, DecisionReadings, Store, Refusal, day, request_refund,
  check_refund, attempt, insert, agent_count, pair_count, or_zero, is_some, new_refund,
  approve_refund, deny_refund, check_decision, find_refund, verify_provider_token, apply_approval,
  apply_denial, decide,
}
use jecp_server.Routes.Refunds.Accepted.{IsRefundable, request_refund-IsRefundable}
use jecp_server.Routes.Refunds.Limits.{IsLimited, begin, next, Sequence-IsLimited}
use jecp_server.Routes.Refunds.Decisions.{take_decision, approve, deny, take_decision_once}

abbrev same_text : Text → Text → Bool
same_text key hash = text_eq key hash

abbrev charge : Transaction
charge = record {
  agent_id = 1;
  kind = "charge";
  amount_usdc = 50;
  created_at = 0;
  refunded_at = none;
  provider_id = some 9;
}

abbrev readings : RequestReadings
readings = record {
  is_json = true;
  agent_creds = some (1, codes "k");
  body = some 77;
  has_pool = true;
  api_key_hash = some (codes "k");
  transaction = some charge;
  agent_count_ok = true;
  pair_count_ok = true;
  insert_ok = true;
  now = 30 * day;
  fresh_id = 4;
}

abbrev row : Refund
row = record {
  id = 4;
  transaction_id = 77;
  agent_id = 1;
  provider_id = 9;
  amount_usdc = 50;
  status = "requested";
  requested_at = 30 * day;
  resolved_at = none;
}

accepted : (request_refund same_text readings [] []).0 ≡ ok row
unfolding request_refund check_refund attempt insert agent_count pair_count or_zero is_some
    new_refund text_eq
accepted = refl

request_refund-IsRefundable_example :
    IsRefundable same_text readings [] row
    × (any (λ (s : Refund). s.transaction_id == 77) [] ≡ false)
    × ((request_refund same_text readings [] []).1 ≡ row ∷ [])
request_refund-IsRefundable_example =
    request_refund-IsRefundable same_text readings [] [] row accepted

Sequence-IsLimited_example : IsLimited (30 * day) (request_refund same_text readings [] []).1
Sequence-IsLimited_example =
    Sequence-IsLimited same_text (30 * day) (request_refund same_text readings [] []).1
      (next readings 0 [] (begin 0) (omega arith) refl refl)

abbrev decision : DecisionReadings
decision = record {
  has_pool = true;
  token = some (codes "p");
  hash_of = λ provider. some (codes "p");
  update_ok = true;
  process_ok = true;
  now = 31 * day;
}

abbrev store : Store
store = record { refunds = row ∷ []; log = [] }

approved : (approve_refund same_text decision 4 store.refunds store).0 ≡ ok tt
unfolding approve_refund check_decision find_refund verify_provider_token apply_approval decide
    text_eq
approved = refl

denied : (deny_refund same_text decision true 4 store.refunds store).0 ≡ ok tt
unfolding deny_refund check_decision find_refund verify_provider_token apply_denial decide text_eq
denied = refl

take_decision_once_example :
    let s' = (take_decision same_text approve decision 4 store.refunds store).1 in
    (e : Refusal) × (take_decision same_text (deny true) decision 4 s'.refunds s' ≡ (err e, s'))
take_decision_once_example =
    take_decision_once same_text approve (deny true) decision decision 4 store refl approved
