-- ===== src/Server/Saved.antt =====
-- What a change of the configuration through the API leaves.

use mirrortools.Prelude.{
  ◌≡◌, ◌≢◌, refl, ◌⊎◌, inl, inr, some, [], ◌==◌, arith, Text, codes, text_has_eq, if_holds,
  text_eq_iff, false, Option, true, sym,
}
use mirrortools.Config.{Env, Config, Result, ok, err, Decoded}
use mirrortools.Config.Load.{load, load_decoded}
use mirrortools.Config.Valid.{IsValid, load-IsValid}
use mirrortools.Server.{Server, Reply, json, status, broadcast_event}
use mirrortools.Server.Sessions.{
  handle_save_config, saved_config, store_config, SaveFault, all_well, create_temp_failed,
  write_temp_failed, mkdir_failed, write_failed, with_file,
}

-- The configuration was replaced by what the text loads as, and the text was written; or the reply
-- says otherwise, and the server is as it was, but for what a write that failed left in the file.
abbrev pub IsSaved :
    Env → (Text → Decoded) → Text → Text → SaveFault → Server → Reply × Server → Type 0
IsSaved env decode tmp raw fault s x =
    ((x.0 ≡ json 200 (status (codes "saved")))
      × (load_decoded (with_file tmp (decode raw) env) (decode raw) ≡ ok x.1.cfg)
      × IsValid env x.1.cfg
      × (x.1.config_file ≡ some raw))
    ⊎ ((x.0 ≢ json 200 (status (codes "saved")))
        × ((x.1 ≡ s)
            ⊎ ((left : Option Text) × (fault ≡ write_failed left)
                × (x.1 ≡ record s { config_file = left }))))

module _ (env : Env) (decode : Text → Decoded) (tmp raw : Text) (s : Server) where
  store_config-IsSaved :
      (fault : SaveFault) (cfg : Config)
      → load_decoded (with_file tmp (decode raw) env) (decode raw) ≡ ok cfg
      → IsValid env cfg
      → IsSaved env decode tmp raw fault s (store_config env raw fault cfg s)
  unfolding store_config broadcast_event
  store_config-IsSaved mkdir_failed cfg e v = inr ((λ k. ground (arith, k)), inl refl)
  store_config-IsSaved (write_failed left) cfg e v =
      inr ((λ k. ground (arith, k)), inr (left, refl, refl))
  store_config-IsSaved all_well cfg e v = inl (refl, e, v, refl)
  store_config-IsSaved create_temp_failed cfg e v = inl (refl, e, v, refl)
  store_config-IsSaved write_temp_failed cfg e v = inl (refl, e, v, refl)

  saved_config-IsSaved :
      (fault : SaveFault) (loaded : Result Config)
      → load_decoded (with_file tmp (decode raw) env) (decode raw) ≡ loaded
      → ((cfg : Config) → loaded ≡ ok cfg → IsValid env cfg)
      → IsSaved env decode tmp raw fault s (saved_config env raw fault loaded s)
  unfolding saved_config
  saved_config-IsSaved fault (err e) l v = inr ((λ k. ground (arith, k)), inl refl)
  saved_config-IsSaved fault (ok cfg) l v =
      if_holds (IsSaved env decode tmp raw fault s) (s.config_path == []) _ _
        (λ _. inr ((λ k. ground (arith, k)), inl refl))
        (λ _. store_config-IsSaved fault cfg l (v cfg refl))

-- What the temporary file loads as.
load_temp :
    (env : Env) (tmp : Text) (d : Decoded)
    → tmp ≢ []
    → load (with_file tmp d env) tmp ≡ load_decoded (with_file tmp d env) d
unfolding load
load_temp env tmp d h =
    let full : (tmp == []) ≡ false = ground (arith, h, text_eq_iff tmp []) in
    let same : (tmp == tmp) ≡ true = (text_eq_iff tmp tmp).1 refl in rw full (rw same refl)

module _ (env : Env) (decode : Text → Decoded) (tmp raw : Text) (s : Server) (h : tmp ≢ []) where
  loaded-IsSaved :
      (fault : SaveFault)
      → IsSaved env decode tmp raw fault s
          (saved_config env raw fault (load (with_file tmp (decode raw) env) tmp) s)
  loaded-IsSaved fault =
      saved_config-IsSaved env decode tmp raw s fault (load (with_file tmp (decode raw) env) tmp)
        (sym (load_temp env tmp (decode raw) h))
        (λ cfg e. load-IsValid (with_file tmp (decode raw) env) tmp cfg e)

-- A configuration that is sent is either saved: what the text decodes to loads, it is valid, the
-- server runs with it and the file holds the text; or the reply says otherwise, and the server is
-- as it was, but for the file where its write failed, which holds what that left. The temporary
-- file's name is not empty.
pub handle_save_config-IsSaved :
    (env : Env) (decode : Text → Decoded) (tmp raw : Text) (fault : SaveFault) (s : Server)
    → tmp ≢ []
    → IsSaved env decode tmp raw fault s (handle_save_config env decode tmp fault (some raw) s)
unfolding handle_save_config
handle_save_config-IsSaved env decode tmp raw create_temp_failed s h =
    inr ((λ k. ground (arith, k)), inl refl)
handle_save_config-IsSaved env decode tmp raw write_temp_failed s h =
    inr ((λ k. ground (arith, k)), inl refl)
handle_save_config-IsSaved env decode tmp raw all_well s h =
    loaded-IsSaved env decode tmp raw s h all_well
handle_save_config-IsSaved env decode tmp raw mkdir_failed s h =
    loaded-IsSaved env decode tmp raw s h mkdir_failed
handle_save_config-IsSaved env decode tmp raw (write_failed left) s h =
    loaded-IsSaved env decode tmp raw s h (write_failed left)
