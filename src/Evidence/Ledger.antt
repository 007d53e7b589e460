-- ===== src/Evidence/Ledger.antt =====
-- lib/transfer-instruction-read.ts, lib/swap-transfer-memo.ts: the events of a Canton transaction,
-- with the fields that the swap reads, and what a transfer instruction and its memo say.
use cantonbit.Shared.{
  ℕ, Bool, false, not, ◌&&◌, ◌||◌, Option, none, some, List, [], ◌∷◌, Text, ◌==◌, if◌then◌else◌,
  codes, text_eq, truthy, or_else, has_prefix,
}

pub record InstrumentId : Type 0 where
  pub admin : Text
  pub id : Text

-- An instrument as an event shows it: a field may be missing.
pub record SeenInstrument : Type 0 where
  pub admin : Option Text
  pub id : Option Text

-- A value under `meta.values`: a string, or anything else.
pub data MetaValue : Type 0 where
  text : Text → MetaValue
  other : MetaValue

-- `meta`, by its `values`; no `values` is none.
pub record Meta : Type 0 where
  pub values : Option (List (Text × MetaValue))

pub record TransferFields : Type 0 where
  pub sender : Option Text
  pub receiver : Option Text
  pub amount : Option Text
  pub instrument_id : Option SeenInstrument
  pub meta : Option Meta

-- The value of an interface view: the fields under `transfer`, or the fields themselves.
pub data ViewValue : Type 0 where
  nested : Option TransferFields → ViewValue
  flat : TransferFields → ViewValue

pub record InterfaceView : Type 0 where
  pub interface_id : Option Text
  pub view_value : Option ViewValue
  pub view_status_code : Option ℕ

-- A missing argument is one with no field.
pub record CreateArgument : Type 0 where
  pub transfer : Option TransferFields
  pub owner : Option Text
  pub amount : Option Text
  pub instrument_id : Option SeenInstrument
  pub instrument : Option SeenInstrument

pub record CreatedEvent : Type 0 where
  pub contract_id : Option Text
  pub template_id : Option Text
  pub create_argument : CreateArgument
  pub interface_views : List InterfaceView

-- The argument of a choice: its own fields, a description, and the fields under `transfer`.
pub record ChoiceArgument : Type 0 where
  pub own : TransferFields
  pub description : Option Text
  pub transfer : Option TransferFields

-- A party and its `changeToInitialAmountAsOfRoundZero`, when that is a string.
pub record BalanceChange : Type 0 where
  pub party : Text
  pub change : Option Text

-- `result.summary.balanceChanges`, empty when it is missing.
pub record ExerciseResult : Type 0 where
  pub receiver_holding_cid : Option Text
  pub balance_changes : List BalanceChange

pub record ExercisedEvent : Type 0 where
  pub contract_id : Option Text
  pub template_id : Option Text
  pub choice : Option Text
  pub choice_argument : ChoiceArgument
  pub exercise_result : ExerciseResult

-- A node of the transaction, in either of the two shapes of the ledger's API.
pub record Node : Type 0 where
  pub created_tree_event : Option CreatedEvent
  pub created_event : Option CreatedEvent
  pub exercised_tree_event : Option ExercisedEvent
  pub exercised_event : Option ExercisedEvent

pub record TransferPayload : Type 0 where
  pub sender : Text
  pub receiver : Text
  pub amount : Text
  pub instrument_id : SeenInstrument
  pub meta : Option Meta

abbrev pub first {ℓ} : {A : Type ℓ} → Option A → Option A → Option A
first none b = b
first (some a) b = some a

abbrev pub with_contract_id : Option CreatedEvent → Option CreatedEvent
with_contract_id none = none
with_contract_id (some e) = if truthy e.contract_id then some e else none

unfoldable pub created_event_from_node : Node → Option CreatedEvent
created_event_from_node n = with_contract_id (first n.created_tree_event n.created_event)

unfoldable pub exercised_event_from_node : Node → Option ExercisedEvent
exercised_event_from_node n = first n.exercised_tree_event n.exercised_event

-- What stands behind the first colon.
unfoldable pub pick_transfer_instruction_suffix : Text → Text
pick_transfer_instruction_suffix [] = []
pick_transfer_instruction_suffix (c ∷ s) =
    if c == b':' then s else pick_transfer_instruction_suffix s

abbrev pub transfer_instruction_interface : Text
transfer_instruction_interface =
    codes
      "#splice-api-token-transfer-instruction-v1:Splice.Api.Token.TransferInstructionV1:TransferInstruction"

-- `fields.receiver && fields.sender`, and then the payload.
abbrev pub payload_of : Option TransferFields → Option TransferPayload
payload_of none = none
payload_of (some f) =
    if truthy f.receiver && truthy f.sender
    then some (record {
      sender = or_else f.sender [];
      receiver = or_else f.receiver [];
      amount = or_else f.amount (codes "0");
      instrument_id = or_else f.instrument_id (record { admin = some []; id = some [] });
      meta = f.meta;
    })
    else none

abbrev pub fields_of_view : Option ViewValue → Option TransferFields
fields_of_view none = none
fields_of_view (some (ViewValue.nested f)) = f
fields_of_view (some (ViewValue.flat f)) = some f

abbrev pub is_failed_view : Option ℕ → Bool
is_failed_view none = false
is_failed_view (some code) = not (code == 0)

abbrev pub is_transfer_view : InterfaceView → Bool
is_transfer_view v =
    let id = or_else v.interface_id [] in
    not (is_failed_view v.view_status_code)
    && (text_eq id transfer_instruction_interface
        || text_eq (pick_transfer_instruction_suffix id)
            (pick_transfer_instruction_suffix transfer_instruction_interface))

unfoldable pub payload_of_views : List InterfaceView → Option TransferPayload
unfolding pick_transfer_instruction_suffix
payload_of_views [] = none
payload_of_views (v ∷ vs) =
    let rest = payload_of_views vs in
    if is_transfer_view v then first (payload_of (fields_of_view v.view_value)) rest else rest

unfoldable pub read_transfer_instruction_payload : CreatedEvent → Option TransferPayload
unfolding payload_of_views
read_transfer_instruction_payload e =
    first (payload_of e.create_argument.transfer) (payload_of_views e.interface_views)

abbrev pub transfer_reason_meta_key : Text
transfer_reason_meta_key = codes "splice.lfdecentralizedtrust.org/reason"

unfoldable pub memo_under : Text → List (Text × MetaValue) → Text
memo_under key [] = []
memo_under key ((k, MetaValue.text memo) ∷ values) =
    let rest = memo_under key values in if text_eq k key then memo else rest
memo_under key ((k, MetaValue.other) ∷ values) =
    let rest = memo_under key values in if text_eq k key then [] else rest

abbrev pub memo_in : Option (List (Text × MetaValue)) → Text
memo_in none = []
memo_in (some values) = memo_under transfer_reason_meta_key values

unfoldable pub transfer_memo_from_meta : Option Meta → Text
unfolding memo_under
transfer_memo_from_meta none = []
transfer_memo_from_meta (some meta) = memo_in meta.values

abbrev pub canton_swap_memo_prefix : Text
canton_swap_memo_prefix = codes "oranj.c2c.v1."

abbrev pub htlc_loop_counter_memo_prefix : Text
htlc_loop_counter_memo_prefix = codes "oranj.htlc.fwd.v1."

abbrev pub htlc_reverse_loop_memo_prefix : Text
htlc_reverse_loop_memo_prefix = codes "oranj.htlc.rev.v1."

abbrev pub legacy_swap_memo : Text
legacy_swap_memo = codes "OranjSwap"

unfoldable pub is_order_bound_swap_memo : Text → Bool
is_order_bound_swap_memo memo =
    has_prefix canton_swap_memo_prefix memo
    || has_prefix htlc_loop_counter_memo_prefix memo
    || has_prefix htlc_reverse_loop_memo_prefix memo

unfoldable pub is_legacy_swap_memo : Text → Bool
is_legacy_swap_memo memo = text_eq memo [] || text_eq memo legacy_swap_memo
