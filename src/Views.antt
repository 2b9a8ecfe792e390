-- ===== src/Views.antt =====
-- pkg/view/view.go: a view and how it is checked and handed to the database. Base64, the file system,
-- the regular expressions and the database answer through `Services`.
pub mod Manager
pub mod Wire
pub mod Wasm
pub mod Saved
pub mod Startup
mod Tests
use shinzo_host_client.Prelude.{
  ℕ, zero, suc, ◌+◌, ◌<◌, String, Bool, true, false, not, ◌&&◌, ◌||◌, Option, none, some, List, [],
  ◌∷◌, ◌++◌, ◌==◌, nat_eq, string_eq, if◌then◌else◌, length, ltb,
}
use shinzo_host_client.Prelude.Bytes.{bytes_eq, codes, has_prefix, has_infix}
use shinzo_host_client.Prelude.Results.{Result, ok, err, ◌>>=◌}
use shinzo_host_client.Pruner.DocId.{Bytes}

pub record Lens : Type 0 where
  pub path : Bytes
  pub arguments : Bytes

pub record View : Type 0 where
  pub name : String
  pub contract_address : String
  pub query : Bytes
  pub sdl : Bytes
  pub lenses : List Lens

pub data ViewError : Type 0 where
  view_name_required view_query_required view_sdl_required view_query_sdl_required : ViewError
  lens_empty_path lens_invalid_base64 invalid_wasm_format write_wasm_file : ViewError
  setup_lens_error create_view create_view_after_correction view_already_registered : ViewError

-- `add_view` is given the lens CID, which is empty for none, and answers with the text of an error.
pub record Services (Database : Type 0) : Type 0 where
  pub decode_base64 : Bytes → Option Bytes
  pub write_wasm : ℕ → Bytes → Bytes → Option Bytes  -- the absolute path of what is written
  pub add_lens : View → Database → Option Bytes × Database
  pub add_view : Bytes → Bytes → Bytes → Database → Option Bytes × Database
  pub correct_query : Bytes → Bytes → Bytes

-- A path that is neither a file's nor a URL is base64.
unfoldable pub is_base64_path : Bytes → Bool
is_base64_path path =
    not (has_prefix path (codes "file://")) && not (has_prefix path (codes "http"))

unfoldable pub has_lenses : View → Bool
has_lenses v = ltb 0 (length v.lenses)

any_base64 : List Lens → Bool
unfolding is_base64_path
any_base64 [] = false
any_base64 (l ∷ lenses) = is_base64_path l.path || any_base64 lenses

unfoldable pub needs_wasm_conversion : View → Bool
unfolding any_base64
needs_wasm_conversion v = any_base64 v.lenses

unfoldable pub is_valid_wasm : Bytes → Bool
is_valid_wasm file_bytes =
    if ltb (length file_bytes) 8 then false else has_prefix file_bytes (0 ∷ 97 ∷ 115 ∷ 109 ∷ [])

module _ {Database : Type 0} (services : Services Database) where
  open services use {decode_base64, write_wasm, add_lens, add_view, correct_query}

  is_valid_base64 : Bytes → Bool
  is_valid_base64 s = elim (decode_base64 s) [ none ↦ false | some decoded ↦ true ]

  validate_lens : Lens → Result ViewError Unit
  unfolding is_valid_base64 is_base64_path
  validate_lens l =
      if l.path == []
      then err lens_empty_path
      else if is_base64_path l.path && not (is_valid_base64 l.path)
      then err lens_invalid_base64
      else ok tt

  validate_lenses : List Lens → Result ViewError Unit
  unfolding validate_lens
  validate_lenses [] = ok tt
  validate_lenses (l ∷ lenses) = do _ ← validate_lens l; validate_lenses lenses

  unfoldable pub validate : View → Result ViewError Unit
  unfolding validate_lenses
  validate v =
      if v.name == ""
      then err view_name_required
      else if v.query == []
      then err view_query_required
      else if v.sdl == []
      then err view_sdl_required
      else validate_lenses v.lenses

  written : Lens → Option Bytes → Result ViewError Lens
  written l none = err write_wasm_file
  written l (some path) = ok (record l { path = codes "file://" ++ path })

  decoded_lens : ℕ → Lens → Option Bytes → Result ViewError Lens
  unfolding written is_valid_wasm
  decoded_lens i l none = err lens_invalid_base64
  decoded_lens i l (some wasm) =
      if is_valid_wasm wasm then written l (write_wasm i l.path wasm) else err invalid_wasm_format

  post_lens : ℕ → Lens → Result ViewError Lens
  unfolding decoded_lens is_base64_path
  post_lens i l = if is_base64_path l.path then decoded_lens i l (decode_base64 l.path) else ok l

  post_lenses : ℕ → List Lens → Result ViewError (List Lens)
  unfolding post_lens
  post_lenses i [] = ok []
  post_lenses i (l ∷ lenses) = do
    l' ← post_lens i l
    rest ← post_lenses (suc i) lenses
    ok (l' ∷ rest)

  unfoldable pub post_wasm_to_file : View → Result ViewError View
  unfolding post_lenses
  post_wasm_to_file v = do lenses ← post_lenses 0 v.lenses; ok (record v { lenses = lenses })

  lens_answer : Option Bytes × Database → Result ViewError Bytes × Database
  lens_answer (none, db) = (err setup_lens_error, db)
  lens_answer (some cid, db) = (ok cid, db)

  -- `SetupLensInDefraDB`: the CID of the lens, empty for a view without one.
  unfoldable pub setup_lens_in_defra_db : View → Database → Result ViewError Bytes × Database
  unfolding lens_answer has_lenses
  setup_lens_in_defra_db v db = if has_lenses v then lens_answer (add_lens v db) else (ok [], db)

  -- The answer to the retry with a corrected query.
  retried : View → Option Bytes × Database → Result ViewError View × Database
  retried v (none, db) = (ok v, db)
  retried v (some e, db) =
      if has_infix e (codes "already exists")
      then (ok v, db)
      else (err create_view_after_correction, db)

  corrected : Bytes → Bytes → View → Database → Result ViewError View × Database
  unfolding retried
  corrected lens_cid query v db =
      if query == v.query
      then (err create_view, db)
      else retried (record v { query = query }) (add_view lens_cid query v.sdl db)

  view_added : Bytes → View → Option Bytes × Database → Result ViewError View × Database
  unfolding corrected
  view_added lens_cid v (none, db) = (ok v, db)
  view_added lens_cid v (some e, db) =
      if has_infix e (codes "already exists")
      then (ok v, db)
      else if has_infix e (codes "Cannot query field") && has_infix e (codes "Did you mean")
      then corrected lens_cid (correct_query e v.query) v db
      else (err create_view, db)

  -- The view as it is left, since a correction changes its query.
  unfoldable pub configure_lens : Bytes → View → Database → Result ViewError View × Database
  unfolding view_added
  configure_lens lens_cid v db =
      if (v.query == []) || (v.sdl == [])
      then (err view_query_sdl_required, db)
      else view_added lens_cid v (add_view lens_cid v.query v.sdl db)
