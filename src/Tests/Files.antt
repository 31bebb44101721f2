-- ===== src/Tests/Files.antt =====
-- The export and the import of JSON, with the JSON library as a data type.
use cephtrace.Base.{
  sym, map, ℕ, ◌≡◌, refl, ap, arith, Bool, true, false, List, [], ◌∷◌, Option, none, some, codes,
}
use cephtrace.Select.Embedded.{Named}
use cephtrace.Select.Embedded.Import.{put_name, lookup_name, DwarfMaps, cleared}
use cephtrace.Select.Process.{get_basename}
use cephtrace.Dwarf.Json.{
  assign_all, header, module_entry, JsonLibrary, export_to_json, import_from_json, insert_names,
  module_names,
}
use cephtrace.Dwarf.Json.Values.{IsJson}
use cephtrace.Dwarf.Json.RoundTrip.{AreMaps, IsRestored, import_from_json-export-IsRestored}

mutual
  pub data Tree : Type 0 where
    node : Items → Tree
    sequence : Elements → Tree
    words : List ℕ → Tree
    flag : Bool → Tree
    number : ℕ → Tree

  pub data Items : Type 0 where
    no_item : Items
    item : List ℕ → Tree → Items → Items

  pub data Elements : Type 0 where
    no_element : Elements
    element : Tree → Elements → Elements

abbrev pub pack_items : List (Named Tree) → Items
pack_items [] = no_item
pack_items (e ∷ es) = item e.name e.value (pack_items es)

abbrev pub items_in : Items → List (Named Tree)
items_in no_item = []
items_in (item n t r) = record { name = n; value = t } ∷ items_in r

abbrev pub pack_elements : List Tree → Elements
pack_elements [] = no_element
pack_elements (t ∷ ts) = element t (pack_elements ts)

abbrev pub elements_in : Elements → List Tree
elements_in no_element = []
elements_in (element t r) = t ∷ elements_in r

abbrev pub items_of : Tree → List (Named Tree)
items_of (node r) = items_in r
items_of _ = []

abbrev pub elements_of : Tree → List Tree
elements_of (sequence r) = elements_in r
elements_of _ = []

abbrev pub is_node : Tree → Bool
is_node (node r) = true
is_node _ = false

abbrev pub words_of : Tree → Option (List ℕ)
words_of (words w) = some w
words_of _ = none

abbrev pub flag_of : Tree → Option Bool
flag_of (flag b) = some b
flag_of _ = none

abbrev pub number_of : Tree → Option ℕ
number_of (number n) = some n
number_of _ = none

abbrev pub trees : JsonLibrary
trees = record {
  Json = Tree;
  Text = Tree;
  object = λ es. node (pack_items es);
  array = λ ts. sequence (pack_elements ts);
  text = words;
  boolean = flag;
  unsigned = number;
  integer = number;
  is_object = is_node;
  items = items_of;
  elements = elements_of;
  get_text = words_of;
  get_bool = flag_of;
  get_int = number_of;
  get_uint32 = number_of;
  get_uint64 = number_of;
  dump = λ t. some t;
  parse = λ t. some t;
}

items_in-pack : (es : List (Named Tree)) → items_in (pack_items es) ≡ es
items_in-pack [] = refl
items_in-pack (e ∷ es) = ap (λ r. e ∷ r) (items_in-pack es)

elements_in-pack : (ts : List Tree) → elements_in (pack_elements ts) ≡ ts
elements_in-pack [] = refl
elements_in-pack (t ∷ ts) = ap (λ r. t ∷ r) (elements_in-pack ts)

trees-IsJson : IsJson trees
trees-IsJson = record {
  parse-dump = λ j t e. sym e;
  items-object = λ es d. items_in-pack es;
  elements-array = elements_in-pack;
  object-is_object = λ es. refl;
  text-is_object = λ s. refl;
  get_text-text = λ s. refl;
  get_bool-boolean = λ b. refl;
  get_int-integer = λ w h. refl;
  get_uint32-unsigned = λ n h. refl;
  get_uint64-unsigned = λ n h. refl;
}

abbrev osd_maps : DwarfMaps
osd_maps = record cleared {
  mod_func2pc =
      record {
        name = codes "ceph-osd";
        value = record { name = codes "dequeue_op"; value = 4096 } ∷ [];
      }
      ∷ [];
}

osd_maps-AreMaps : AreMaps trees osd_maps
unfolding module_names insert_names put_name get_basename lookup_name
osd_maps-AreMaps = record {
  names = (refl, tt);
  reserved = ((refl, refl), tt);
  plain = (refl, tt);
  pcs = ((omega arith, tt), tt);
  vars = tt;
  sizes = tt;
  offsets = tt;
  pc_keys = ((refl, tt), tt);
  var_keys = tt;
  size_keys = tt;
  offset_keys = tt;
}

abbrev exported : Tree
exported = node (
    pack_items (
      assign_all trees (map (module_entry trees (λ m. none) osd_maps) (module_names osd_maps))
        (header trees (codes "19.2.0") (codes "x86_64"))))

written :
    export_to_json trees (λ m. none) (codes "x86_64") (codes "19.2.0") osd_maps ≡ some exported
unfolding export_to_json
written = refl

import_from_json-export-IsRestored_example :
    IsRestored osd_maps cleared (import_from_json trees (codes "19.2.0") (some exported) cleared)
import_from_json-export-IsRestored_example =
    import_from_json-export-IsRestored trees trees-IsJson (λ m. none) (codes "19.2.0")
      (codes "x86_64") osd_maps cleared exported osd_maps-AreMaps written
