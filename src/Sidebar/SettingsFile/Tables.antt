-- ===== src/Sidebar/SettingsFile/Tables.antt =====
-- What the tables of config.toml other than its own leave of a setting.
use herdr_agent_watcher.Prelude.{
  ℕ, ◌<◌, ◌^◌, ◌≡◌, String, some, false, ◌==◌, arith, Bool-cases, Option-cases, inl, inr,
}
use herdr_agent_watcher.Prelude.Map
use herdr_agent_watcher.Prelude.Map.{Map, HasUniqueKeys, insert-HasUniqueKeys, get-insert}
use herdr_agent_watcher.Sidebar.SettingsFile.{
  whole, Toml, Loaded, read_appearance, read_cards, read_list, read_daemon, read_table,
}
use herdr_agent_watcher.Sidebar.SettingsFile.Entries.{part_untouched}

module _ (T : Toml) where
  open T use {Value, as_str, as_bool, as_integer, as_table, value}

  -- A part of the settings that only one table sets stays whatever another table holds.
  module _ {A : Type 0} (part : Loaded → A) where
    pub stays_outside_list :
        ((l : Loaded) (k : String) (v : Value) → part (read_appearance T l k v) ≡ part l)
        → ((l : Loaded) (k : String) (v : Value) → part (read_cards T l k v) ≡ part l)
        → ((l : Loaded) (v : Value) → part (read_daemon T l v) ≡ part l)
        → (l : Loaded) (k : String) (v : Value) → (k == "list") ≡ false
        → part (read_table T l k v) ≡ part l
    unfolding read_table
    stays_outside_list ha hc hd l k v h = elim (Bool-cases (k == "appearance")) [
      | inl e ↦ rw e (part_untouched T part (read_appearance T) ha l v)
      | inr e ↦ elim (Bool-cases (k == "cards")) [
        | inl f ↦ rw (e, f) (part_untouched T part (read_cards T) hc l v)
        | inr f ↦ elim (Bool-cases (k == "daemon")) [
          | inl g ↦ rw (e, f, h, g) (hd l v)
          | inr g ↦ rw (e, f, h, g)
        ]
      ]
    ]

    pub stays_outside_cards :
        ((l : Loaded) (k : String) (v : Value) → part (read_appearance T l k v) ≡ part l)
        → ((l : Loaded) (k : String) (v : Value) → part (read_list T l k v) ≡ part l)
        → ((l : Loaded) (v : Value) → part (read_daemon T l v) ≡ part l)
        → (l : Loaded) (k : String) (v : Value) → (k == "cards") ≡ false
        → part (read_table T l k v) ≡ part l
    unfolding read_table
    stays_outside_cards ha hl hd l k v h = elim (Bool-cases (k == "appearance")) [
      | inl e ↦ rw e (part_untouched T part (read_appearance T) ha l v)
      | inr e ↦ elim (Bool-cases (k == "list")) [
        | inl f ↦ rw (e, h, f) (part_untouched T part (read_list T) hl l v)
        | inr f ↦ elim (Bool-cases (k == "daemon")) [
          | inl g ↦ rw (e, h, f, g) (hd l v)
          | inr g ↦ rw (e, h, f, g)
        ]
      ]
    ]

    pub stays_outside_appearance :
        ((l : Loaded) (k : String) (v : Value) → part (read_cards T l k v) ≡ part l)
        → ((l : Loaded) (k : String) (v : Value) → part (read_list T l k v) ≡ part l)
        → ((l : Loaded) (v : Value) → part (read_daemon T l v) ≡ part l)
        → (l : Loaded) (k : String) (v : Value) → (k == "appearance") ≡ false
        → part (read_table T l k v) ≡ part l
    unfolding read_table
    stays_outside_appearance hc hl hd l k v h = elim (Bool-cases (k == "cards")) [
      | inl e ↦ rw (h, e) (part_untouched T part (read_cards T) hc l v)
      | inr e ↦ elim (Bool-cases (k == "list")) [
        | inl f ↦ rw (h, e, f) (part_untouched T part (read_list T) hl l v)
        | inr f ↦ elim (Bool-cases (k == "daemon")) [
          | inl g ↦ rw (h, e, f, g) (hd l v)
          | inr g ↦ rw (h, e, f, g)
        ]
      ]
    ]

  pub part_daemon :
      {A : Type 0} (part : Loaded → A)
      → ((l : Loaded) (days : ℕ) → part (record l { prune_after_days = days }) ≡ part l)
      → (l : Loaded) (v : Value) → part (read_daemon T l v) ≡ part l
  unfolding read_daemon
  part_daemon part stays l v = elim (Option-cases (as_table v)) [
    | inl e ↦ rw (e, read_daemon)
    | inr (t, e) ↦ rw (e, read_daemon) (stays l _)
  ]

  pub days_outside :
      (l : Loaded) (k : String) (v : Value)
      → (k == "daemon") ≡ false
      → (read_table T l k v).prune_after_days ≡ l.prune_after_days
  unfolding read_table read_appearance read_cards read_list
  days_outside l k v h = elim (Bool-cases (k == "appearance")) [
    | inl e ↦ rw e (
        part_untouched T (λ l. l.prune_after_days) (read_appearance T) (λ l k v. ground (arith)) l
          v)
    | inr e ↦ elim (Bool-cases (k == "cards")) [
      | inl f ↦
          rw (e, f)
            (part_untouched T (λ l. l.prune_after_days) (read_cards T) (λ l k v. ground (arith)) l
              v)
      | inr f ↦ elim (Bool-cases (k == "list")) [
        | inl g ↦
            rw (e, f, g)
              (part_untouched T (λ l. l.prune_after_days) (read_list T) (λ l k v. ground (arith)) l
                v)
        | inr g ↦ rw (e, f, g, h)
      ]
    ]
  ]

  pub days_own :
      (l : Loaded) (v : Value) (t : Map Value) (days : ℕ)
      → as_table v ≡ some t
      → Map.get t "prune_after_days" ≡ some (value (whole days))
      → days < 2 ^ 32
      → (read_daemon T l v).prune_after_days ≡ days
  unfolding read_daemon
  days_own l v t days e g h = rw (e, read_daemon, g, T.as_integer-value) (ground (arith, h))
