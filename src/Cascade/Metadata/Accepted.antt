-- ===== src/Cascade/Metadata/Accepted.antt =====
-- What a metadata snapshot says when it is accepted.
use mathlib.Core.Option.{some-injective}
use oh_my_api.Base.{
  ◌≡◌, refl, sym, ap, subst, ◌∙◌, inl, inr, Bool, true, false, Option, none, some, List, [], ◌∷◌,
  length, ltb, if◌then◌else◌, Text, text_eq, text_eq_iff, Map, lookup, insert, lookup-insert, ℤ,
  pos, leb_ℤ, is_some, All, Bool-cases, Option-cases, not_both, any,
}
use oh_my_api.Cascade.Metadata.{
  MetadataModel, SnapshotError, Snapshot, refused, accepted, max_metadata_snapshot_entries,
  max_metadata_model_name_bytes, byte_length, is_blank, stored_length, add_entry, after_entry,
  add_entries, parse_metadata_snapshot, if_positive, metadata_context_length,
}

-- An entry that is in order on its own.
pub record IsEntry (e : MetadataModel) : Type 0 where
  pub named : is_blank e.model ≡ false
  pub short : ltb max_metadata_model_name_bytes (byte_length e.model) ≡ false
  pub allowed_length : is_some (stored_length e.context_length) ≡ true

-- The length that the entries give for a name.
abbrev pub advertised : Text → List MetadataModel → Option ℤ
advertised name [] = none
advertised name (e ∷ entries) =
    if text_eq e.model name then e.context_length else advertised name entries

accepted-injective : {a b : Map ℤ} → accepted a ≡ accepted b → a ≡ b
accepted-injective h = cc

refused-accepted : {e : SnapshotError} {a : Map ℤ} → refused e ≡ accepted a → ⊥
refused-accepted h = cc

none-some : {n : ℤ} → none ≡ some n → ⊥
none-some h = cc

-- An entry that is taken.
pub record IsAdded (e : MetadataModel) (out m : Map ℤ) : Type 0 where
  pub entry : IsEntry e
  pub fresh : is_some (lookup e.model out) ≡ false
  pub value : ℤ
  pub is_value : stored_length e.context_length ≡ some value
  pub added : m ≡ insert e.model value out

add_entry-IsAdded :
    (e : MetadataModel) (out m : Map ℤ) → add_entry e out ≡ accepted m → IsAdded e out m
unfolding add_entry
add_entry-IsAdded e out m h = elim (Bool-cases (is_blank e.model)) [
  | inl a ↦ absurd (refused-accepted (rw a at h))
  | inr a ↦ elim (Bool-cases (ltb max_metadata_model_name_bytes (byte_length e.model))) [
    | inl b ↦ absurd (refused-accepted (rw (a, b) at h))
    | inr b ↦ elim (Bool-cases (is_some (lookup e.model out))) [
      | inl c ↦ absurd (refused-accepted (rw (a, b, c) at h))
      | inr c ↦ elim (Option-cases (stored_length e.context_length)) [
        | inl d ↦ absurd (refused-accepted (rw (a, b, c, d) at h))
        | inr (n, d) ↦ record {
          entry = record { named = a; short = b; allowed_length = rw d refl };
          fresh = c;
          value = n;
          is_value = d;
          added = sym (accepted-injective (rw (a, b, c, d) at h));
        }
      ]
    ]
  ]
]

-- Whether an entry has the name.
abbrev pub is_named : Text → List MetadataModel → Bool
is_named name entries = any (λ e. text_eq e.model name) entries

after_entry-accepted :
    (s : Snapshot) (rest : Map ℤ → Snapshot) (m : Map ℤ)
    → after_entry s rest ≡ accepted m
    → (out : Map ℤ) × (s ≡ accepted out) × (rest out ≡ accepted m)
after_entry-accepted (refused e) rest m h = absurd (refused-accepted h)
after_entry-accepted (accepted out) rest m h = (out, refl, h)

-- A name that is stored is in none of the entries that follow.
stored-is_named :
    (name : Text) (entries : List MetadataModel) (out m : Map ℤ)
    → add_entries entries out ≡ accepted m
    → is_some (lookup name out) ≡ true
    → is_named name entries ≡ false
unfolding add_entries
stored-is_named name [] out m h s = refl
stored-is_named name (e ∷ entries) out m h s =
    let (out', g, rest) = after_entry-accepted (add_entry e out) (add_entries entries) m h in
    let t = add_entry-IsAdded e out out' g in
    elim (Bool-cases (text_eq e.model name)) [
      | inl same ↦ absurd (
          not_both (is_some (lookup e.model out)) (rw ((text_eq_iff e.model name).0 same) s)
            t.fresh)
      | inr other ↦
          rw other (stored-is_named name entries out' m rest (rw (t.added, lookup-insert, other) s))
    ]

if_positive-stored : (o : Option ℤ) (n : ℤ) → stored_length o ≡ some n → if_positive (some n) ≡ o
unfolding stored_length
if_positive-stored none n h =
    subst (λ k. if_positive (some k) ≡ none) (some-injective (pos 0) n h) refl
if_positive-stored (some k) n h = elim (Bool-cases (leb_ℤ k (pos 0))) [
  | inl e ↦ absurd (none-some (rw e at h))
  | inr e ↦
      let same : k ≡ n = some-injective k n (rw e at h) in
      subst (λ x. if_positive (some x) ≡ some k) same (rw e refl)
]

length_of :
    (name : Text) (m : Map ℤ) (o : Option ℤ)
    → lookup name m ≡ o
    → metadata_context_length m name ≡ if_positive o
unfolding metadata_context_length
length_of name m o h = ap if_positive h

-- Without an entry for a name there is no length.
unnamed :
    (name : Text) (entries : List MetadataModel)
    → (if is_named name entries then advertised name entries else metadata_context_length [] name)
      ≡ advertised name entries
unfolding metadata_context_length lookup
unnamed name [] = refl
unnamed name (e ∷ entries) = elim (Bool-cases (text_eq e.model name)) [
  | inl eq ↦ rw eq refl
  | inr ne ↦ rw ne (unnamed name entries)
]

-- When the loop takes all entries, each is in order, and a name has the length of its entry.
add_entries-accepted :
    (entries : List MetadataModel) (out m : Map ℤ)
    → add_entries entries out ≡ accepted m
    → All IsEntry entries
      × ((name : Text)
          → metadata_context_length m name ≡ (
              if is_named name entries
              then advertised name entries
              else metadata_context_length out name))
unfolding add_entries
add_entries-accepted [] out m h =
    (tt, λ name. ap (λ x. metadata_context_length x name) (sym (accepted-injective h)))
add_entries-accepted (e ∷ entries) out m h =
    let (out', g, rest) = after_entry-accepted (add_entry e out) (add_entries entries) m h in
    let t = add_entry-IsAdded e out out' g in
    let (ok, same) = add_entries-accepted entries out' m rest in
    (
      (t.entry, ok),
      λ name. elim (Bool-cases (text_eq e.model name)) [
        | inl eq ↦
            let stored : lookup name out' ≡ some t.value =
              ap (lookup name) t.added ∙ rw (lookup-insert, eq) refl in
            let none_left = stored-is_named name entries out' m rest (ap is_some stored) in
            rw eq (
              same name
              ∙ ap (λ b. if b then advertised name entries else metadata_context_length out' name)
                  none_left
              ∙ length_of name out' (some t.value) stored
              ∙ if_positive-stored e.context_length t.value t.is_value)
        | inr ne ↦
            let kept : lookup name out' ≡ lookup name out =
              ap (lookup name) t.added ∙ rw (lookup-insert, ne) refl in
            rw ne (
              same name
              ∙ ap (λ l. if is_named name entries then advertised name entries else l)
                  (length_of name out' (lookup name out) kept
                    ∙ sym (length_of name out (lookup name out) refl)))
      ],
    )

-- An accepted snapshot has an id, at most 1000 entries, each of which has a name of at most 256 bytes
-- and no length or a positive one; and the session then answers for every name with the length that
-- its entry gives, and with none for a name without an entry.
pub parse_metadata_snapshot-accepted :
    (is_snapshot : Bool) (id : Text) (entries : List MetadataModel) (m : Map ℤ)
    → parse_metadata_snapshot is_snapshot id (some entries) ≡ accepted m
    → (is_blank id ≡ false)
      × (ltb max_metadata_snapshot_entries (length entries) ≡ false)
      × All IsEntry entries
      × ((name : Text) → metadata_context_length m name ≡ advertised name entries)
unfolding parse_metadata_snapshot
parse_metadata_snapshot-accepted false id entries m h = absurd (refused-accepted h)
parse_metadata_snapshot-accepted true id entries m h = elim (Bool-cases (is_blank id)) [
  | inl e ↦ absurd (refused-accepted (rw e at h))
  | inr e ↦ elim (Bool-cases (ltb max_metadata_snapshot_entries (length entries))) [
    | inl l ↦ absurd (refused-accepted (rw (e, l) at h))
    | inr l ↦
        let (ok, same) = add_entries-accepted entries [] m (rw (e, l) at h) in
        (e, l, ok, λ name. same name ∙ unnamed name entries)
  ]
]
