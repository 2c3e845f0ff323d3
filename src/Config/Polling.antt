-- ===== src/Config/Polling.antt =====
-- Rounds of updateLoop of config/dynamic.go over what the file system shows.
use idena_indexer_api.Prelude.{ℕ, ◌≤◌, ◌≡◌, refl, some, List, [], ◌∷◌, arith}
use idena_indexer_api.Config.{
  DynamicConfig, empty_config, FileState, missing, unopenable, unparsable, readable,
  DynamicConfigHolder, update_if_needed, update_loop, new_dynamic_config_holder, dump_link,
}

-- The file is always there, the time of a readable file decides its content, and these times do
-- not go back. What cannot be opened or parsed may come in between.
abbrev pub Versions : (ℕ → DynamicConfig) → ℕ → List FileState → Type 0
Versions content t [] = Unit
Versions content t (missing ∷ fs) = ⊥
Versions content t (unopenable m ∷ fs) = Versions content t fs
Versions content t (unparsable m ∷ fs) = Versions content t fs
Versions content t (readable m c ∷ fs) = (t ≤ m) × (c ≡ content m) × Versions content m fs

-- The time of the last readable file.
abbrev pub latest : ℕ → List FileState → ℕ
latest t [] = t
latest t (readable m c ∷ fs) = latest m fs
latest t (_ ∷ fs) = latest t fs

record Holds (content : ℕ → DynamicConfig) (t : ℕ) (h : DynamicConfigHolder) : Type 0 where
  mod_time : h.mod_time ≡ some t
  config : h.config ≡ some (content t)

module _ (content : ℕ → DynamicConfig) where
  readable-Holds :
      (t m : ℕ) (c : DynamicConfig) (h : DynamicConfigHolder)
      → Holds content t h
      → t ≤ m
      → c ≡ content m
      → Holds content m (update_if_needed h (readable m c)).1
  unfolding update_if_needed
  readable-Holds t m c h holds le e = ground arith

  unopenable-Holds :
      (t m : ℕ) (h : DynamicConfigHolder)
      → Holds content t h
      → Holds content t (update_if_needed h (unopenable m)).1
  unfolding update_if_needed
  unopenable-Holds t m h holds = ground arith

  unparsable-Holds :
      (t m : ℕ) (h : DynamicConfigHolder)
      → Holds content t h
      → Holds content t (update_if_needed h (unparsable m)).1
  unfolding update_if_needed
  unparsable-Holds t m h holds = ground arith

  update_loop-Holds :
      (t : ℕ) (fs : List FileState) (h : DynamicConfigHolder)
      → Holds content t h
      → Versions content t fs
      → Holds content (latest t fs) (update_loop h fs)
  unfolding update_loop
  update_loop-Holds t [] h holds v = holds
  update_loop-Holds t (missing ∷ fs) h holds v = absurd v
  update_loop-Holds t (unopenable m ∷ fs) h holds v =
      update_loop-Holds t fs (update_if_needed h (unopenable m)).1 (unopenable-Holds t m h holds) v
  update_loop-Holds t (unparsable m ∷ fs) h holds v =
      update_loop-Holds t fs (update_if_needed h (unparsable m)).1 (unparsable-Holds t m h holds) v
  update_loop-Holds t (readable m c ∷ fs) h holds (le, e, v) =
      update_loop-Holds m fs (update_if_needed h (readable m c)).1
        (readable-Holds t m c h holds le e) v

  -- If the holder starts on a readable file, and from then on the file never goes missing, the
  -- modification time of a readable file decides its content, and the times of the readable files
  -- never go back, then after any rounds the holder shows the content of the last readable version,
  -- whatever failed reads came in between.
  pub update_loop-config :
      (t : ℕ) (c : DynamicConfig) (fs : List FileState) (h : DynamicConfigHolder)
      → new_dynamic_config_holder (readable t c) ≡ some h
      → c ≡ content t
      → Versions content t fs
      → (update_loop h fs).config ≡ some (content (latest t fs))
  update_loop-config t c fs h start e v =
      let holds : Holds content t h = unfold new_dynamic_config_holder in ground arith in
      (update_loop-Holds t fs h holds v).config

-- The file is missing, or its time is not after `t`.
abbrev pub IsOld : ℕ → FileState → Type 0
IsOld t missing = Unit
IsOld t (unopenable m) = m ≤ t
IsOld t (unparsable m) = m ≤ t
IsOld t (readable m c) = m ≤ t

abbrev pub AllOld : ℕ → List FileState → Type 0
AllOld t [] = Unit
AllOld t (f ∷ fs) = IsOld t f × AllOld t fs

record IsEmptied (t : ℕ) (h : DynamicConfigHolder) : Type 0 where
  mod_time : h.mod_time ≡ some t
  config : h.config ≡ some empty_config

update_if_needed-IsEmptied :
    (t : ℕ) (h : DynamicConfigHolder) (f : FileState)
    → IsEmptied t h
    → IsOld t f
    → IsEmptied t (update_if_needed h f).1
unfolding update_if_needed
update_if_needed-IsEmptied t h missing s le = ground arith
update_if_needed-IsEmptied t h _ s le = ground arith

update_loop-IsEmptied :
    (t : ℕ) (fs : List FileState) (h : DynamicConfigHolder)
    → IsEmptied t h
    → AllOld t fs
    → IsEmptied t (update_loop h fs)
unfolding update_loop
update_loop-IsEmptied t [] h s v = s
update_loop-IsEmptied t (f ∷ fs) h s (old, v) =
    update_loop-IsEmptied t fs (update_if_needed h f).1 (update_if_needed-IsEmptied t h f s old) v

-- A holder that has read a version of time `t` and finds the file missing once serves no dump link
-- from then on, however often the file is there again, unchanged or older: the configuration is
-- emptied, and the remembered time is not.
pub dump_link_missing :
    (t : ℕ) (h : DynamicConfigHolder) (fs : List FileState)
    → h.mod_time ≡ some t
    → AllOld t fs
    → dump_link (update_loop (update_if_needed h missing).1 fs).config ≡ []
dump_link_missing t h fs e old =
    let emptied : IsEmptied t (update_if_needed h missing).1 =
      unfold update_if_needed in ground arith in
    rw (update_loop-IsEmptied t fs (update_if_needed h missing).1 emptied old).config
      (unfold dump_link in refl)
