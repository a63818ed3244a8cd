-- ===== src/Sidebar/SettingsFile/Entries.antt =====
-- The reading of the entries of a document, one setting at a time, and what `set` leaves in it.
use herdr_agent_watcher.Prelude.{
  ◌≡◌, refl, ◌∙◌, ap, String, none, some, [], ◌∷◌, false, ◌==◌, arith, eq_iff, eq_refl, Bool-cases,
  Option-cases, inl, inr,
}
use herdr_agent_watcher.Prelude.Map
use herdr_agent_watcher.Prelude.Map.{Map, HasUniqueKeys, insert-HasUniqueKeys, get-insert}
use herdr_agent_watcher.Sidebar.SettingsFile.{
  Item, Toml, Loaded, read_entries, read_section, read_table, from_toml, set,
}

module _ (T : Toml) where
  open T use {Value, as_table, value, table}

  -- A part of the settings that no entry touches stays, and the entry that has its key sets it.
  module _ {A : Type 0} (part : Loaded → A) (read : Loaded → String → Value → Loaded) (key : String)
      (other : (l : Loaded) (k : String) (v : Value)
        → (k == key) ≡ false
        → part (read l k v) ≡ part l) where
    part_missing :
        (l : Loaded) (entries : Map Value)
        → Map.get entries key ≡ none
        → part (read_entries T read l entries) ≡ part l
    unfolding read_entries Map.get
    part_missing l [] h = refl
    part_missing l ((k, v) ∷ entries) h =
        part_missing (read l k v) entries (ground (arith, h)) ∙ other l k v (ground (arith, h))

    pub part_found :
        (l : Loaded) (entries : Map Value) (v : Value) (a : A)
        → HasUniqueKeys entries
        → Map.get entries key ≡ some v
        → ((l' : Loaded) → part (read l' key v) ≡ a)
        → part (read_entries T read l entries) ≡ a
    unfolding read_entries Map.get
    part_found l [] v a u h set_here = absurd (cc h)
    part_found l ((k, w) ∷ entries) v a u h set_here = elim (Bool-cases (k == key)) [
      | inl e ↦
          let same : k ≡ key = ground (arith, e, eq_iff k key) in
          let here : w ≡ v = ground (arith, e, h) in
          part_missing (read l k w) entries (rw (← same) u.0) ∙ rw same (rw here (set_here l))
      | inr e ↦ part_found (read l k w) entries v a u.1 (ground (arith, e, h)) set_here
    ]

    part_section :
        (l : Loaded) (v : Value) (entries : Map Value) (w : Value) (a : A)
        → as_table v ≡ some entries
        → HasUniqueKeys entries
        → Map.get entries key ≡ some w
        → ((l' : Loaded) → part (read l' key w) ≡ a)
        → part (read_section T read l v) ≡ a
    unfolding read_section
    part_section l v entries w a e u h set_here =
        rw (e, read_section) (part_found l entries w a u h set_here)

  -- A part of the settings that no entry of a table touches stays.
  pub part_untouched :
      {A : Type 0} (part : Loaded → A) (read : Loaded → String → Value → Loaded)
      → ((l : Loaded) (k : String) (v : Value) → part (read l k v) ≡ part l)
      → (l : Loaded) (v : Value) → part (read_section T read l v) ≡ part l
  unfolding read_section read_entries
  part_untouched part read stays l v = elim (Option-cases (as_table v)) [
    | inl e ↦ rw (e, read_section)
    | inr (entries, e) ↦ rw (e, read_section) (each l entries)
  ]
    where
      each : (l : Loaded) (entries : Map Value) → part (read_entries T read l entries) ≡ part l
      each l [] = refl
      each l ((k, v) ∷ entries) = each (read l k v) entries ∙ stays l k v

  -- The document after `set`: the table has the entry.
  pub set_lem :
      (doc doc' : Map Value) (section key : String) (item : Item)
      → HasUniqueKeys doc
      → ((v : Value) (entries : Map Value)
          → Map.get doc section ≡ some v
          → as_table v ≡ some entries
          → HasUniqueKeys entries)
      → set T doc section key item ≡ some doc'
      → (v : Value) × (entries : Map Value) × HasUniqueKeys doc'
        × (Map.get doc' section ≡ some v)
        × (as_table v ≡ some entries)
        × HasUniqueKeys entries
        × (Map.get entries key ≡ some (value item))
  unfolding set Map.get
  set_lem doc doc' section key item u us h = elim (Option-cases (Map.get doc section)) [
    | inl e ↦
        let entries = (key, value item) ∷ [] in
        let same : Map.insert doc section (table entries) ≡ doc' = ground (arith, e, h) in
        let (read, reads, unique, gets) = T.as_table-table entries (refl, tt) in
        rw (← same) (
          table entries,
          read,
          insert-HasUniqueKeys doc section (table entries) u,
          get-insert doc section section (table entries) ∙ rw (eq_refl section),
          reads,
          unique,
          gets key ∙ rw (eq_refl key, Map.get),
        )
    | inr (v, e) ↦ elim (Option-cases (as_table v)) [
      | inl f ↦ absurd (ground (arith, e, f, h))
      | inr (old, f) ↦
          let entries = Map.insert old key (value item) in
          let same : Map.insert doc section (table entries) ≡ doc' = ground (arith, e, f, h) in
          let (read, reads, unique, gets) =
            T.as_table-table entries (insert-HasUniqueKeys old key (value item) (us v old e f)) in
          rw (← same) (
            table entries,
            read,
            insert-HasUniqueKeys doc section (table entries) u,
            get-insert doc section section (table entries) ∙ rw (eq_refl section),
            reads,
            unique,
            gets key ∙ get-insert old key key (value item) ∙ rw (eq_refl key),
          )
    ]
  ]

  -- A setting is read back from the document that it was written into.
  module _ {A : Type 0} (part : Loaded → A) (read : Loaded → String → Value → Loaded)
      (section key : String) (item : Item) (a : A)
      (other : (l : Loaded) (k : String) (v : Value)
        → (k == key) ≡ false
        → part (read l k v) ≡ part l)
      (outside : (l : Loaded) (k : String) (v : Value)
        → (k == section) ≡ false
        → part (read_table T l k v) ≡ part l)
      (inside : (l : Loaded) (v : Value) → read_table T l section v ≡ read_section T read l v)
      (own : (l : Loaded) → part (read l key (value item)) ≡ a) where
    pub part-from_toml :
        (l : Loaded) (doc doc' : Map Value)
        → HasUniqueKeys doc
        → ((v : Value) (entries : Map Value)
            → Map.get doc section ≡ some v
            → as_table v ≡ some entries
            → HasUniqueKeys entries)
        → set T doc section key item ≡ some doc'
        → part (from_toml T l doc') ≡ a
    unfolding from_toml
    part-from_toml l doc doc' u us h =
        let (v, entries, ud, gd, e, ue, ge) = set_lem doc doc' section key item u us h in
        part_found part (read_table T) section outside l doc' v a ud gd (λ l'.
          ap part (inside l' v)
          ∙ part_section part read key other l' v entries (value item) a e ue ge own)
