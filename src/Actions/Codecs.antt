-- ===== src/Actions/Codecs.antt =====
-- internal/actionresolver/resolver.go and image.go: the codecs of the slots' values.
use Prim.Native.String.{◌++◌ as text_append}
use compshare_agent.Prelude.{
  String, Bool, ◌||◌, not, Option, none, some, List, [], ◌∷◌, Except, ok, err, ltb, if◌then◌else◌,
  str_eq,
}
use compshare_agent.SafeTool.Params.{contains}
use compshare_agent.Actions.Types.{
  Floats, Any, text, float, json_number, boolean, array, object, Strings, SlotCodecKind,
  resource_ref, machine_type, zone, image, capacity, integer, number, boolean_codec, enum, time,
  constrained_text, sensitive_text, structured, unsupported, FieldSpec, image_resolved,
  image_catalog_unavailable, image_not_found, ValueError, dependency_error, plain_error, Resolver,
}
use compshare_agent.Actions.Catalogs.{canonical_machine_type, canonical_zone, match_value}

infixr 65 ◌+++◌
abbrev pub ◌+++◌ : String → String → String
s +++ t = text_append s t

module _ (floats : Floats) (lib : Strings) where
  open floats use {Float, at_most_zero, below_zero, is_whole, parse}

  pub as_number : Any Float → Option Float
  as_number (float n) = some n
  as_number (json_number n) = n
  as_number (text s) = parse (lib.trim_space s)
  as_number _ = none

  -- The loop of NormalizeCapacityGB.
  pub parse_suffixed : List String → String → Option Float
  parse_suffixed [] s = none
  parse_suffixed (suffix ∷ suffixes) s =
      let rest = parse_suffixed suffixes s in
      elim (lib.cut_suffix s suffix) [
        | some number_text ↦ parse (lib.trim_space number_text)
        | none ↦ rest
      ]

  pub capacity_of : Any Float → Option Float
  unfolding parse_suffixed
  capacity_of (text s) = parse_suffixed ("GIB" ∷ "GB" ∷ "G" ∷ []) (lib.trim_space (lib.to_upper s))
  capacity_of _ = none

  pub normalize_capacity_gb : Any Float → Option Float
  unfolding as_number capacity_of
  normalize_capacity_gb value = elim (as_number value) [
    | some n ↦ some n
    | none ↦ capacity_of value
  ]

  abbrev Codec : Type 0
  Codec = Any Float → Except ValueError (Any Float)

  abbrev refused : String → Except ValueError (Any Float)
  refused told = err (plain_error told)

  -- A text that is not blank, trimmed.
  pub with_text : String → (String → Except ValueError (Any Float)) → Codec
  with_text told accept (text s) =
      let trimmed = lib.trim_space s in if str_eq trimmed "" then refused told else accept trimmed
  with_text told accept _ = refused told

  pub with_number : String → (Float → Bool) → Option Float → Except ValueError (Any Float)
  with_number told bad none = refused told
  with_number told bad (some n) = if bad n then refused told else ok (float n)

  abbrev as_text : Except ValueError String → Except ValueError (Any Float)
  as_text (ok s) = ok (text s)
  as_text (err e) = err e

  pub resource_ref_value : String → Except ValueError (Any Float)
  resource_ref_value s =
      if ltb 128 (lib.rune_count s)
      then refused "resource id is too long"
      else if lib.has_space s
      then refused "resource id cannot contain whitespace"
      else ok (text s)

  pub text_value : String → Except ValueError (Any Float)
  text_value s = if ltb 512 (lib.rune_count s) then refused "text is too long" else ok (text s)

  pub enum_value : List String → Codec
  enum_value allowed (text s) =
      if contains s allowed then ok (text s) else refused "value is outside the declared enum"
  enum_value allowed _ = refused "must be a string"

  pub boolean_value : Codec
  boolean_value (boolean b) = ok (boolean b)
  boolean_value _ = refused "must be a boolean"

  pub structured_value : Codec
  structured_value (array xs) = ok (array xs)
  structured_value (object m) = ok (object m)
  structured_value _ = refused "must be structured JSON"

  module _ (r : Resolver Float) where
    pub machine_type_value : String → Except ValueError String
    unfolding canonical_machine_type
    machine_type_value s =
        match_value "机型目录当前不可用，无法确认该机型名称" "该名称匹配到多个在售机型，请确认具体机型"
          ("机型 " +++ lib.quote s +++ " 不在当前机型目录中") (canonical_machine_type lib s r.machine_types)

    pub zone_value : String → Except ValueError String
    unfolding canonical_zone
    zone_value s =
        match_value "可用区目录当前不可用，无法确认该可用区" "该名称匹配到多个可用区，请确认具体可用区"
          ("可用区 " +++ lib.quote s +++ " 不在当前可用区目录中") (canonical_zone lib s r.zone_catalog)

    pub image_value : String → Except ValueError String
    image_value s = elim (r.resolve_image s) [
      | image_resolved id ↦ ok id
      | image_catalog_unavailable ↦ err (dependency_error "镜像目录当前不可用，无法确认该镜像 ID")
      | image_not_found ↦ err (plain_error ("镜像 " +++ lib.quote s +++ " 不在当前镜像目录中"))
    ]

    -- Resolver.normalizeValue, by the field's codec.
    pub normalize_by : SlotCodecKind → List String → Codec
    unfolding with_text with_number machine_type_value zone_value image_value resource_ref_value
        text_value enum_value as_number normalize_capacity_gb boolean_value structured_value
    normalize_by machine_type allowed v =
        with_text "must be a non-empty machine type name" (λ s. as_text (machine_type_value s)) v
    normalize_by zone allowed v =
        with_text "must be a non-empty zone id or display name" (λ s. as_text (zone_value s)) v
    normalize_by image allowed v =
        with_text "must be a non-empty image id" (λ s. as_text (image_value s)) v
    normalize_by resource_ref allowed v =
        with_text "must be a non-empty resource id" resource_ref_value v
    normalize_by constrained_text allowed v = with_text "must be a non-empty string" text_value v
    normalize_by sensitive_text allowed v = with_text "must be a non-empty string" text_value v
    normalize_by time allowed v = with_text "must be a non-empty string" text_value v
    normalize_by enum allowed v = enum_value allowed v
    normalize_by integer allowed v =
        with_number "must be a positive integer" (λ n. at_most_zero n || not (is_whole n))
          (as_number v)
    normalize_by capacity allowed v =
        with_number "must be a positive integer capacity in GB"
          (λ n. at_most_zero n || not (is_whole n)) (normalize_capacity_gb v)
    normalize_by number allowed v =
        with_number "must be a non-negative number" below_zero (as_number v)
    normalize_by boolean_codec allowed v = boolean_value v
    normalize_by structured allowed v = structured_value v
    normalize_by (unsupported other) allowed v = refused "unsupported codec"

    unfoldable pub normalize_value : FieldSpec → Codec
    unfolding normalize_by
    normalize_value field v = normalize_by field.codec field.enum v
