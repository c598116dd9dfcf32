-- ===== src/Server/Config/Keys.antt =====
-- The log levels, and the key files (integrity-shield-server/pkg/config/request_handler_config.go).
use integrity_shield.Base.{
  ℕ, Str, bytes, ◌==◌, false, ◌≡◌, refl, sym, ap, subst, ◌↔◌, List, [], ◌∷◌, ◌++◌, Option, none,
  some, Error, ok, err, is_empty, arith, inl, inr, Option-cases, Result-cases, ◌∙◌, ◌⊎◌,
}
use integrity_shield.External.Kube.{Kube}
use integrity_shield.Server.Config.{
  log_levels, save_loop, key_result, load_key_secret, key_dir, key_file, clean_path,
}

-- The first text that is not empty, and `info` if both are.
abbrev first_given : Str → Str → Str
first_given [] [] = bytes "info"
first_given [] (c ∷ s) = c ∷ s
first_given (c ∷ s) t = c ∷ s

-- Each of the two levels is the one that is configured for it, else the other one that is
-- configured, else `info`.
pub log_levels_lem :
    (level k8s : Str) → log_levels level k8s ≡ (first_given level k8s, first_given k8s level)
unfolding log_levels bytes
log_levels_lem [] [] = refl
log_levels_lem [] (c ∷ s) = refl
log_levels_lem (c ∷ s) [] = refl
log_levels_lem (c ∷ s) (d ∷ t) = refl

module _ (K : Kube) where
  -- The first entry whose file can be written is written under the path, after an attempt at each
  -- entry before it; the last files are those that this leaves.
  pub data FirstSaved (dir path : Str) (last : K.Files) : List (Str × Str) → K.Files → Type 0 where
    saved_here :
        {fname text : Str} {rest : List (Str × Str)} {files : K.Files}
        → path ≡ key_file dir fname
        → K.write_file (K.mkdir_all files dir) (key_file dir fname) text ≡ (none, last)
        → FirstSaved dir path last ((fname, text) ∷ rest) files
    saved_later :
        {fname text : Str} {rest : List (Str × Str)} {files files' : K.Files} {e : Error}
        → K.write_file (K.mkdir_all files dir) (key_file dir fname) text ≡ (some e, files')
        → FirstSaved dir path last rest files'
        → FirstSaved dir path last ((fname, text) ∷ rest) files

  module _ (ns name : Str) where
    abbrev dir : Str
    dir = key_dir ns name

    -- A path that the loop gives is not empty, since it starts with a slash.
    key_file-ne-nil : (fname : Str) → is_empty (key_file (key_dir ns name) fname) ≡ false
    unfolding key_file key_dir clean_path bytes ◌==◌
    key_file-ne-nil fname = refl

    module _ (fname text : Str) (rest : List (Str × Str)) (sum_err : List Str)
        (files : K.Files) where
      abbrev written : Option Error × K.Files
      written = K.write_file (K.mkdir_all files dir) (key_file dir fname) text

      loop_here :
          written.0 ≡ none
          → save_loop K dir ((fname, text) ∷ rest) sum_err files
            ≡ (key_file dir fname, sum_err, written.1)
      unfolding save_loop
      loop_here p = ground arith

      loop_later :
          {e : Error}
          → written.0 ≡ some e
          → save_loop K dir ((fname, text) ∷ rest) sum_err files
            ≡ save_loop K dir rest (sum_err ++ (e.message ∷ [])) written.1
      unfolding save_loop
      loop_later p = ground arith

    -- Either no path is given, or it is the first one that is written.
    loop_cases :
        (key_data : List (Str × Str)) (sum_err : List Str) (files : K.Files)
        → let r = save_loop K dir key_data sum_err files in
          (r.0 ≡ []) ⊎ FirstSaved dir r.0 r.2 key_data files
    loop_cases [] sum_err files = inl (unfold save_loop in refl)
    loop_cases ((fname, text) ∷ rest) sum_err files =
        let w = written fname text rest sum_err files in
        elim (Option-cases w.0) [
          | inl p ↦
              let e = loop_here fname text rest sum_err files p in
              rw e (inr (saved_here refl (λ i. (p i, w.1))))
          | inr (x, p) ↦
              rw (loop_later fname text rest sum_err files p)
                (elim (loop_cases rest (sum_err ++ (x.message ∷ [])) w.1) [
                  | inl q ↦ inl q
                  | inr q ↦ inr (saved_later (λ i. (p i, w.1)) q)
                ])
        ]

    of_saved :
        {path : Str} {last : K.Files} (key_data : List (Str × Str)) (sum_err : List Str)
        {files : K.Files}
        → FirstSaved dir path last key_data files
        → ((save_loop K dir key_data sum_err files).0 ≡ path)
          × ((save_loop K dir key_data sum_err files).2 ≡ last)
          × (is_empty path ≡ false)
    of_saved _ sum_err (saved_here {fname} {text} {rest} {files} e p) =
        let q = loop_here fname text rest sum_err files (λ i. (p i).0) in
        (
          ap (λ r. r.0) q ∙ sym e,
          ap (λ r. r.2) q ∙ (λ i. (p i).1),
          ap is_empty e ∙ key_file-ne-nil fname,
        )
    of_saved _ sum_err (saved_later {fname} {text} {rest} {files} {files'} {e} p more) =
        let (a, b, c) = of_saved rest (sum_err ++ (e.message ∷ [])) more in
        let q =
          loop_later fname text rest sum_err files (λ i. (p i).0)
          ∙ (λ i. save_loop K dir rest (sum_err ++ (e.message ∷ [])) (p i).1) in
        (ap (λ r. r.0) q ∙ a, ap (λ r. r.2) q ∙ b, c)

    key_result-ok :
        (path : Str) (sum_err : List Str) {p : Str}
        → key_result K ns name path sum_err ≡ ok p
        → (path ≡ p) × (is_empty path ≡ false)
    unfolding key_result
    key_result-ok [] [] h = ground arith
    key_result-ok [] (_ ∷ _) h = ground arith
    key_result-ok (c ∷ path) sum_err h = (ground arith, refl)

    result_of :
        (path : Str) (sum_err : List Str)
        → is_empty path ≡ false
        → key_result K ns name path sum_err ≡ ok path
    unfolding key_result
    result_of [] sum_err h = ground arith
    result_of (c ∷ path) sum_err h = ground arith

    module _ (w : K.Cluster) (files : K.Files) where
      load_read :
          {key_data : List (Str × Str)}
          → K.secret w ns name ≡ ok key_data
          → let r = save_loop K dir key_data [] files in
            load_key_secret K ns name w files ≡ (key_result K ns name r.0 r.1, r.2)
      unfolding load_key_secret
      load_read q = ground arith

      load_unread :
          {e : Error} {path : Str}
          → K.secret w ns name ≡ err e
          → (load_key_secret K ns name w files).0 ≡ ok path
          → ⊥
      unfolding load_key_secret
      load_unread q h = ground arith

      -- A key is loaded, with a path and the files that are left, exactly where the secret can be
      -- read and one of its entries can be written: the first such entry in the order of the
      -- secret is written under the path, after an attempt at each entry before it.
      pub load_key_secret_iff :
          (path : Str) (last : K.Files)
          → (load_key_secret K ns name w files ≡ (ok path, last)) ↔ (
              (key_data : List (Str × Str)) × (K.secret w ns name ≡ ok key_data)
              × FirstSaved (key_dir ns name) path last key_data files)
      load_key_secret_iff path last = (
        λ h. elim (Result-cases (K.secret w ns name)) [
          | inr (e, q) ↦ absurd (load_unread q (λ i. (h i).0))
          | inl (key_data, q) ↦
              let both = sym (load_read q) ∙ h in
              let (same, filled) = key_result-ok _ _ (λ i. (both i).0) in
              (key_data, q, given key_data same filled (λ i. (both i).1))
        ],
        λ (key_data, q, saved).
            let (a, b, c) = of_saved key_data [] saved in
            load_read q ∙ (λ i. (
              (result_of (save_loop K dir key_data [] files).0 (save_loop K dir key_data [] files).1
                      (ap is_empty a ∙ c)
                    ∙ ap ok a)
                  i,
              b i,
            )),
      )
        where
          given :
              (key_data : List (Str × Str))
              → (save_loop K dir key_data [] files).0 ≡ path
              → is_empty (save_loop K dir key_data [] files).0 ≡ false
              → (save_loop K dir key_data [] files).2 ≡ last
              → FirstSaved dir path last key_data files
          given key_data a c b = elim (loop_cases key_data [] files) [
            | inl p ↦ absurd (true-ne-false (sym (ap is_empty p) ∙ c))
            | inr s ↦
                subst (λ (x : Str × K.Files). FirstSaved dir x.0 x.1 key_data files)
                  (λ i. (a i, b i)) s
          ]
            where
              true-ne-false : is_empty {A = ℕ} [] ≡ false → ⊥
              true-ne-false p = cc
