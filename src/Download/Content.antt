-- ===== src/Download/Content.antt =====
-- What becomes of the temporary directory.
use mpas_product_controller.Base.{◌≡◌, inl, inr, String, true, List, ◌∷◌, arith}
use mpas_product_controller.Kube.Errors.{Error}
use mpas_product_controller.Kube.Action.{Session, Outcome-cases, ◌>>=◌, done, fails}
use mpas_product_controller.Download.{
  Call, Env, path_in, unpack, fetch_file, read_values, fetch_values_file_content,
}

module _ (env : Env) (product url : String) (s : Session Call (Unit {0})) where
  -- The calls of a run up to the look at the file, in the directory.
  abbrev pub looked : String → List Call
  looked dir =
      Call.close_body
      ∷ Call.stat (path_in env dir product)
      ∷ Call.untar dir
      ∷ Call.make_temp
      ∷ Call.download url
      ∷ s.calls

  -- Where a content is returned, it was read from products/<product>/config.cue in a temporary
  -- directory into which the artifact was unpacked, and the last call has removed that directory.
  pub fetch_values_file_content_clean :
      (content : String)
      → (fetch_values_file_content env product url s).0 ≡ done content
      → (dir : String) × (env.read_file (looked dir) (path_in env dir product) ≡ done content)
        × ((fetch_values_file_content env product url s).1.calls
            ≡ Call.remove_all dir ∷ Call.read_file (path_in env dir product) ∷ looked dir)
  unfolding fetch_values_file_content fetch_file unpack read_values ◌>>=◌
  fetch_values_file_content_clean content h =
      elim (Outcome-cases (env.make_temp (Call.download url ∷ s.calls))) [
        | inl (dir, e) ↦ (dir, ground arith, ground arith)
        | inr bad ↦ absurd (ground arith)
      ]

  -- Where the artifact has been unpacked and does not hold the file, the error that says so is
  -- returned as it is, and the temporary directory is left behind: no call removes it.
  pub fetch_values_file_content_missing :
      (dir : String) (e : Error)
      → env.new_request url ≡ done tt
      → env.download s.calls url ≡ done tt
      → env.make_temp (Call.download url ∷ s.calls) ≡ done dir
      → env.untar (Call.make_temp ∷ Call.download url ∷ s.calls) dir ≡ done tt
      → env.stat
          (Call.untar dir ∷ Call.make_temp ∷ Call.download url ∷ s.calls)
          (path_in env dir product)
        ≡ fails e
      → env.is_not_exist e ≡ true
      → ((fetch_values_file_content env product url s).0 ≡ fails e)
        × ((fetch_values_file_content env product url s).1.calls ≡ looked dir)
  unfolding fetch_values_file_content fetch_file unpack read_values ◌>>=◌
  fetch_values_file_content_missing dir e a b c d f g = (ground arith, ground arith)
