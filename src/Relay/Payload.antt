-- ===== src/Relay/Payload.antt =====
-- internal/relay/payload.go: whether a message of the protocol carries fields that this build does
-- not know. A message is the tree that protoreflect walks: whether unknown bytes came with it, and
-- its populated fields.
use oc_control_plane.Prelude.{
  Bool, true, false, ◌≡◌, ◌↔◌, refl, arith, if◌then◌else◌, Bool-cases, inl, inr,
}

mutual
  -- An invalid message is a typed nil.
  pub data Message : Type 0 where
    invalid : Message
    message : Bool → Fields → Message

  pub data Fields : Type 0 where
    no_fields : Fields
    field : Field → Fields → Fields

  -- A map's values are messages or not, and so are a list's elements.
  pub data Field : Type 0 where
    scalar map_of_scalars list_of_scalars : Field
    nested : Message → Field
    map_of list_of : Messages → Field

  pub data Messages : Type 0 where
    no_messages : Messages
    entry : Message → Messages → Messages

unfoldable mutual
  -- hasUnknown.
  pub has_unknown : Message → Bool
  has_unknown invalid = false
  has_unknown (message unknown fields) = if unknown then true else any_unknown fields

  -- The Range over the populated fields, which stops at the first unreadable one.
  pub any_unknown : Fields → Bool
  any_unknown no_fields = false
  any_unknown (field f fs) = if field_carries_unknown f then true else any_unknown fs

  -- fieldCarriesUnknown.
  pub field_carries_unknown : Field → Bool
  field_carries_unknown scalar = false
  field_carries_unknown map_of_scalars = false
  field_carries_unknown list_of_scalars = false
  field_carries_unknown (nested m) = has_unknown m
  field_carries_unknown (map_of ms) = any_of_messages ms
  field_carries_unknown (list_of ms) = any_of_messages ms

  pub any_of_messages : Messages → Bool
  any_of_messages no_messages = false
  any_of_messages (entry m ms) = if has_unknown m then true else any_of_messages ms

mutual
  -- Somewhere in the message, at any depth, unknown bytes came along.
  pub data CarriesUnknown : Message → Type 0 where
    here : (fs : Fields) → CarriesUnknown (message true fs)
    below : (b : Bool) (fs : Fields) → FieldsCarry fs → CarriesUnknown (message b fs)

  pub data FieldsCarry : Fields → Type 0 where
    first : (f : Field) (fs : Fields) → FieldCarries f → FieldsCarry (field f fs)
    later : (f : Field) (fs : Fields) → FieldsCarry fs → FieldsCarry (field f fs)

  pub data FieldCarries : Field → Type 0 where
    in_nested : (m : Message) → CarriesUnknown m → FieldCarries (nested m)
    in_map : (ms : Messages) → MessagesCarry ms → FieldCarries (map_of ms)
    in_list : (ms : Messages) → MessagesCarry ms → FieldCarries (list_of ms)

  pub data MessagesCarry : Messages → Type 0 where
    first_entry : (m : Message) (ms : Messages) → CarriesUnknown m → MessagesCarry (entry m ms)
    later_entry : (m : Message) (ms : Messages) → MessagesCarry ms → MessagesCarry (entry m ms)

mutual
  unfolding has_unknown any_unknown field_carries_unknown any_of_messages

  found_unknown : (m : Message) → CarriesUnknown m → has_unknown m ≡ true
  found_unknown _ (here fs) = refl
  found_unknown _ (below b fs c) = ground (arith, found_fields fs c)

  found_fields : (fs : Fields) → FieldsCarry fs → any_unknown fs ≡ true
  found_fields _ (first f fs c) = ground (arith, found_field f c)
  found_fields _ (later f fs c) = ground (arith, found_fields fs c)

  found_field : (f : Field) → FieldCarries f → field_carries_unknown f ≡ true
  found_field _ (in_nested m c) = found_unknown m c
  found_field _ (in_map ms c) = found_messages ms c
  found_field _ (in_list ms c) = found_messages ms c

  found_messages : (ms : Messages) → MessagesCarry ms → any_of_messages ms ≡ true
  found_messages _ (first_entry m ms c) = ground (arith, found_unknown m c)
  found_messages _ (later_entry m ms c) = ground (arith, found_messages ms c)

mutual
  unfolding has_unknown any_unknown field_carries_unknown any_of_messages

  where_unknown : (m : Message) → has_unknown m ≡ true → CarriesUnknown m
  where_unknown invalid h = cc
  where_unknown (message true fs) h = here fs
  where_unknown (message false fs) h = below false fs (where_fields fs h)

  where_fields : (fs : Fields) → any_unknown fs ≡ true → FieldsCarry fs
  where_fields no_fields h = cc
  where_fields (field f fs) h = elim (Bool-cases (field_carries_unknown f)) [
    | inl hit ↦ first f fs (where_field f hit)
    | inr miss ↦ later f fs (where_fields fs (rw miss at h))
  ]

  where_field : (f : Field) → field_carries_unknown f ≡ true → FieldCarries f
  where_field scalar h = cc
  where_field map_of_scalars h = cc
  where_field list_of_scalars h = cc
  where_field (nested m) h = in_nested m (where_unknown m h)
  where_field (map_of ms) h = in_map ms (where_messages ms h)
  where_field (list_of ms) h = in_list ms (where_messages ms h)

  where_messages : (ms : Messages) → any_of_messages ms ≡ true → MessagesCarry ms
  where_messages no_messages h = cc
  where_messages (entry m ms) h = elim (Bool-cases (has_unknown m)) [
    | inl hit ↦ first_entry m ms (where_unknown m hit)
    | inr miss ↦ later_entry m ms (where_messages ms (rw miss at h))
  ]

-- The walk over a message reports unknown fields exactly where some message within it, at any
-- depth, in a field, a list or a map, came with bytes that this build does not know.
pub has_unknown_iff : (m : Message) → (has_unknown m ≡ true) ↔ CarriesUnknown m
has_unknown_iff m = (where_unknown m, found_unknown m)
