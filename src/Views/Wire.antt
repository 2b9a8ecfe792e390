-- ===== src/Views/Wire.antt =====
-- pkg/view/view.go: a view from its wire format. The bundle library and the regular expressions
-- answer through `Bundler`.
use shinzo_host_client.Prelude.{String, Option, none, some, List, [], ◌==◌, if◌then◌else◌}
use shinzo_host_client.Prelude.Bytes.{bytes_eq}
use shinzo_host_client.Pruner.DocId.{Bytes}
use shinzo_host_client.Views.{Lens, View}

pub record Bundle : Type 0 where
  pub query : Bytes
  pub sdl : Bytes
  pub lenses : List Lens

-- The first group of the first match of `type\s+(\w+)\s+@`, and of `type\s+(\w+)\s+{`.
pub record Bundler : Type 0 where
  pub unbundle_view : Bytes → Option Bundle
  pub type_with_directive : Bytes → Option String
  pub type_with_fields : Bytes → Option String

module _ (bundler : Bundler) where
  open bundler use {unbundle_view, type_with_directive, type_with_fields}

  named : Option String → Option String → View → View
  named (some name) fallback v = record v { name = name }
  named none (some name) v = record v { name = name }
  named none none v = v

  unfoldable pub extract_name_from_sdl : View → View
  unfolding named
  extract_name_from_sdl v =
      if v.sdl == []
      then record v { name = "" }
      else named (type_with_directive v.sdl) (type_with_fields v.sdl) v

  unnamed : Bundle → View
  unnamed b = record {
    name = "";
    contract_address = "";
    query = b.query;
    sdl = b.sdl;
    lenses = b.lenses;
  }

  of_bundle : Option Bundle → Option View
  unfolding extract_name_from_sdl unnamed
  of_bundle none = none
  of_bundle (some b) = some (extract_name_from_sdl (unnamed b))

  unfoldable pub new_view_from_bundle : Bundle → View
  unfolding extract_name_from_sdl unnamed
  new_view_from_bundle b = extract_name_from_sdl (unnamed b)

  -- `none` where the wire cannot be unbundled.
  unfoldable pub new_view_from_wire : Bytes → Option View
  unfolding of_bundle
  new_view_from_wire wire = of_bundle (unbundle_view wire)
