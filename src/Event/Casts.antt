-- ===== src/Event/Casts.antt =====
-- packet_registry.hpp and packet_event_registry.hpp: the class behind the cast of an event's packet.
use gtproxy.Prelude.{
  sym, [], ◌==◌, subst, ℕ, Bool, true, false, ◌≡◌, refl, ap, ◌∙◌, arith, Option, none, some,
  if◌then◌else◌, Bool-cases, inl, inr, List,
}
use mathlib.Core.Option
use gtproxy.Utils.TextParse.{TextParse, is_empty}
use gtproxy.Utils.Zlib.{Inflate, decompress_zlib}
use gtproxy.Packet.Types.{zero_packet}
use gtproxy.Packet.Variant.{Variant}
use gtproxy.Packet.TextPackets.{read_join_request, read_validate_world, read_input, read_log}
use gtproxy.Packet.GamePackets.{read_item_database_data, read_modify_item_inventory}
use gtproxy.Packet.CallPackets.{read_on_send_to_server, read_on_super_main_start}
use gtproxy.Packet.WorldPackets.{read_on_spawn, read_on_remove}
use gtproxy.Packet.Payload.{
  TextPayload, GamePayload, VariantPayload, Payload, text, game, call, raw,
}
use gtproxy.Packet.Ids.{
  PacketId, derive_text_id, derive_game_id, derive_variant_id, derive_packet_id,
}
use gtproxy.Packet.Registry.{
  IPacket, game_class, is_registered, read_text, read_game, read_call, create_text, create_game,
  create_variant,
}
use gtproxy.Event.Types.{
  packet_id, text_packet_id, game_packet_class_id, call_packet_id, EventBuilder, event_builder,
  has_event,
}

-- The id of the class, where there is a packet.
abbrev HasId : {A : Type 0} → (A → PacketId) → Option A → PacketId → Type 0
HasId class none id = Unit
HasId class (some p) id = class p ≡ id

HasId-map :
    {A B : Type 0} (class : A → PacketId) (class' : B → PacketId) (f : A → B) (o : Option A)
    (id : PacketId)
    → ((a : A) → class' (f a) ≡ class a)
    → HasId class o id
    → HasId class' (Option.map f o) id
HasId-map class class' f none id e h = tt
HasId-map class class' f (some a) id e h = e a ∙ h

HasId-if :
    {A : Type 0} (class : A → PacketId) (b : Bool) (o r : Option A) (id : PacketId)
    → HasId class o id
    → HasId class r id
    → HasId class (if b then o else r) id
HasId-if class true o r id h k = h
HasId-if class false o r id h k = k

read_text-HasId :
    (id : PacketId) (entries : TextParse) → HasId text_packet_id (read_text id entries) id
unfolding read_text text_packet_id read_join_request read_validate_world read_input read_log
read_text-HasId id entries = ground arith

item_database_data-HasId :
    (inflate : Inflate) (p : GamePayload)
    → HasId game_packet_class_id
        (read_item_database_data inflate p)
        PacketId.send_item_database_data
unfolding read_item_database_data game_packet_class_id
item_database_data-HasId inflate p = HasId-if game_packet_class_id (is_empty p.extra) none _ _ tt (
    HasId-if game_packet_class_id (p.packet.int_data == 0) none _ _ tt (
      HasId-if game_packet_class_id (decompress_zlib inflate p.extra [] p.packet.int_data).0 _ none
        _ refl tt))

read_game-HasId :
    (inflate : Inflate) (id : PacketId) (p : GamePayload)
    → HasId packet_id (read_game inflate id p) id
unfolding read_game game_packet_class_id packet_id read_modify_item_inventory
read_game-HasId inflate PacketId.send_item_database_data p =
    HasId-map game_packet_class_id packet_id (game_class zero_packet)
      (read_item_database_data inflate p) _ (λ a. refl) (item_database_data-HasId inflate p)
read_game-HasId inflate id p = ground arith

read_call-HasId :
    (id : PacketId) (variant : List Variant) → HasId call_packet_id (read_call id variant) id
unfolding read_call call_packet_id read_on_send_to_server read_on_super_main_start read_on_spawn
    read_on_remove
read_call-HasId id variant = ground arith

-- The id of the packet that a payload with the id `id` gives.
abbrev pub class_id : PacketId → PacketId
class_id id = if is_registered id then id else PacketId.unknown

class_id-HasId :
    (id : PacketId) (o : Option IPacket) (generic : IPacket)
    → HasId packet_id o id
    → packet_id generic ≡ PacketId.unknown
    → HasId packet_id (if is_registered id then o else some generic) (class_id id)
class_id-HasId id o generic h k = elim (Bool-cases (is_registered id)) [
  | inl e ↦ rw e h
  | inr e ↦ rw e k
]

agrees :
    (derived id : PacketId) (o : Option IPacket) (p : IPacket)
    → Path (Option PacketId) (some derived) (some id)
    → o ≡ some p
    → HasId packet_id o (class_id derived)
    → packet_id p ≡ class_id id
agrees derived id o p d c h =
    let same : derived ≡ id = ground arith in
    subst (λ (r : Option IPacket). HasId packet_id r (class_id derived)) c h ∙ ap class_id same

-- Every builder casts to the class of its id, and tells of that id.
event_builder_lem :
    (id : PacketId) (b : EventBuilder)
    → event_builder id ≡ some b
    → (b.packet_type ≡ id) × (b.packet_type_id ≡ id)
unfolding event_builder
event_builder_lem id b e = ground arith

-- There is a builder for registered classes only.
class_id-built :
    (id : PacketId) (b : EventBuilder) → event_builder (class_id id) ≡ some b → class_id id ≡ id
unfolding event_builder is_registered
class_id-built id b e = ground arith

module _ (breaks : ℕ → Bool) (inflate : Inflate) where
  create_text-HasId :
      (p : TextPayload)
      → HasId packet_id (create_text breaks inflate p) (class_id (derive_text_id breaks p))
  unfolding create_text packet_id
  create_text-HasId p =
      class_id-HasId (derive_text_id breaks p) _ (IPacket.generic_text p)
        (HasId-map text_packet_id packet_id (IPacket.text_class p.entries)
          (read_text (derive_text_id breaks p) p.entries) _ (λ a. refl)
          (read_text-HasId (derive_text_id breaks p) p.entries))
        refl

  create_game-HasId :
      (p : GamePayload)
      → HasId packet_id (create_game breaks inflate p) (class_id (derive_game_id p))
  unfolding create_game packet_id
  create_game-HasId p =
      class_id-HasId (derive_game_id p) _ (IPacket.generic_game p)
        (read_game-HasId inflate (derive_game_id p) p) refl

  create_variant-HasId :
      (p : VariantPayload)
      → HasId packet_id (create_variant breaks inflate p) (class_id (derive_variant_id p))
  unfolding create_variant packet_id
  create_variant-HasId p =
      class_id-HasId (derive_variant_id p) _ (IPacket.generic_variant p)
        (HasId-map call_packet_id packet_id (IPacket.call_class p.game_packet p.variant)
          (read_call (derive_variant_id p) p.variant) _ (λ a. refl)
          (read_call-HasId (derive_variant_id p) p.variant))
        refl

  -- `PacketRegistry::create`, which is not called with a RawPayload.
  unfoldable pub create : Payload → Option IPacket
  unfolding create_text create_game create_variant
  create (text p) = create_text breaks inflate p
  create (game p) = create_game breaks inflate p
  create (call p) = create_variant breaks inflate p
  create (raw b) = none

  packet_id-create :
      (payload : Payload) (id : PacketId) (p : IPacket)
      → derive_packet_id breaks payload ≡ some id
      → create payload ≡ some p
      → packet_id p ≡ class_id id
  unfolding create derive_packet_id
  packet_id-create (text t) id p d c = agrees _ id _ p d c (create_text-HasId t)
  packet_id-create (game g) id p d c = agrees _ id _ p d c (create_game-HasId g)
  packet_id-create (call v) id p d c = agrees _ id _ p d c (create_variant-HasId v)
  packet_id-create (raw b) id p d c = ground arith

  -- Where the registry makes a packet of a payload, and there is a builder of events for its id:
  -- the class that the builder casts the packet to is the class that it has, and that of the id
  -- that was derived from the payload, and the event is of the type for that id.
  pub event_builder-create :
      (payload : Payload) (id : PacketId) (p : IPacket) (b : EventBuilder)
      → derive_packet_id breaks payload ≡ some id
      → create payload ≡ some p
      → event_builder (packet_id p) ≡ some b
      → (b.packet_type ≡ packet_id p) × (b.packet_type_id ≡ packet_id p) × (packet_id p ≡ id)
  event_builder-create payload id p b d c e =
      let found : event_builder (class_id id) ≡ some b =
        sym (ap event_builder (packet_id-create payload id p d c)) ∙ e in
      let same = class_id-built id b found in
      let (cast, told) = event_builder_lem (packet_id p) b e in
      (cast, told, packet_id-create payload id p d c ∙ same)

-- The ids with a registered class are those with a builder of events.
registered-has_event : (id : PacketId) → is_registered id ≡ has_event id
unfolding is_registered has_event event_builder
registered-has_event id = ground arith
