-- ===== src/Userdb/Memory/Laws.antt =====
-- The database in memory against the contract of Postgres.antt.
use jumble.Shared.{
  ℕ, zero, suc, String, ◌≡◌, ◌≢◌, ◌⊎◌, refl, sym, ap, ◌∙◌, Option, none, some, [], ◌∷◌, arith,
  nat_eq, eq_iff, inl, inr, ◌||◌, ◌&&◌, Bool-cases, false, true, if◌then◌else◌, Option-cases,
}
use mathlib.Core.Option
use text.Mathlib.TextLemmas.{tail-eq_of_cons-eq}
use jumble.Bus.Models.{Uuid}
use jumble.Userdb.Models.{User}
use jumble.Userdb.Database.{Row}
use jumble.Userdb.Postgres.{IsPostgres, inserted, updated}
use jumble.Userdb.Memory.{
  Table, uuid_text, by_id, by_text, by_email, remove, modify, memory, is_some, held_by_other,
}

-- No two rows share an id or an address.
abbrev pub IsUnique : Table → Type 0
IsUnique [] = Unit
IsUnique (r ∷ s) = (by_id s r.id ≡ none) × (by_email s r.email ≡ none) × IsUnique s

id_key : (s : Table) (i : Uuid) (r : Row) → by_id s i ≡ some r → r.id ≡ i
unfolding by_id
id_key [] i r h = cc
id_key (q ∷ s) i r h = ground (arith, id_key s i r)

email_key_to :
    (s : Table)
    → IsUnique s
    → (a : String) (r : Row) → by_email s a ≡ some r
    → (by_id s r.id ≡ some r) × (r.email ≡ a)
unfolding by_id by_email
email_key_to [] u a r h = absurd (cc h)
email_key_to (q ∷ s) (fresh, _, u) a r h = ground (arith, eq_iff q.email a, email_key_to s u a r)

email_key_from :
    (s : Table)
    → IsUnique s
    → (a : String) (r : Row) → by_id s r.id ≡ some r
    → r.email ≡ a
    → by_email s a ≡ some r
unfolding by_id by_email
email_key_from [] u a r h e = cc
email_key_from (q ∷ s) (_, free, u) a r h e =
    ground (arith, eq_iff q.email a, email_key_from s u a r)

by_id-remove :
    (k : Uuid) (s : Table) (i : Uuid)
    → by_id (remove k s) i ≡ (if nat_eq k i then none else by_id s i)
unfolding by_id remove
by_id-remove k [] i = ground arith
by_id-remove k (q ∷ s) i = ground (arith, by_id-remove k s i)

by_email-remove :
    (k : Uuid) (s : Table) (a : String) → by_email s a ≡ none → by_email (remove k s) a ≡ none
unfolding by_email remove
by_email-remove k [] a h = refl
by_email-remove k (q ∷ s) a h = ground (arith, by_email-remove k s a)

remove-IsUnique : (k : Uuid) (s : Table) → IsUnique s → IsUnique (remove k s)
unfolding remove
remove-IsUnique k [] u = tt
remove-IsUnique k (q ∷ s) (fresh, free, u) = elim (Bool-cases (nat_eq k q.id)) [
  | inl same ↦ rw same (remove-IsUnique k s u)
  | inr other ↦ rw other (
    by_id-remove k s q.id ∙ rw other fresh,
    by_email-remove k s q.email free,
    remove-IsUnique k s u,
  )
]

by_id-modify :
    (u : User) (s : Table) (i : Uuid)
    → by_id (modify u s) i
      ≡ (if nat_eq u.id i then Option.map (updated u) (by_id s i) else by_id s i)
unfolding by_id modify
by_id-modify u [] i = ground arith
by_id-modify u (q ∷ s) i = ground (arith, by_id-modify u s i)

-- Only rows with the user's id are changed, and those get the user's address.
by_email-modify-none :
    (u : User) (s : Table) (a : String)
    → u.email ≢ a
    → by_email s a ≡ none
    → by_email (modify u s) a ≡ none
unfolding by_email modify
by_email-modify-none u [] a d h = refl
by_email-modify-none u (q ∷ s) a d h =
    ground (arith, eq_iff q.email a, eq_iff u.email a, by_email-modify-none u s a d)

modify_absent : (u : User) (s : Table) → by_id s u.id ≡ none → modify u s ≡ s
unfolding by_id modify
modify_absent u [] h = refl
modify_absent u (q ∷ s) h = ground (arith, modify_absent u s)

-- The address is free, or its row is the user's own.
abbrev IsOwn : User → Table → Type 0
IsOwn u s = (r : Row) → by_email s u.email ≡ some r → r.id ≡ u.id

IsOwn-tail : (u : User) (q : Row) (s : Table) → IsUnique (q ∷ s) → IsOwn u (q ∷ s) → IsOwn u s
unfolding by_email
IsOwn-tail u q s (fresh, free, un) own r h = own r (ground (arith, eq_iff q.email u.email))

-- No other row has the address of the row that is changed.
free_after :
    (u : User) (q : Row) (s : Table)
    → IsUnique (q ∷ s)
    → IsOwn u (q ∷ s)
    → u.id ≡ q.id
    → by_email s u.email ≡ none
unfolding by_email
free_after u q s (fresh, free, un) own same = elim (Option-cases (by_email s u.email)) [
  | inl absent ↦ absent
  | inr (r, h) ↦
      let id = IsOwn-tail u q s (fresh, free, un) own r h in
      let (here, _) = email_key_to s un u.email r h in
      absurd (cc (sym (ap (by_id s) (id ∙ same)) ∙ here, fresh))
]

other_address :
    (u : User) (q : Row) (s : Table)
    → IsOwn u (q ∷ s)
    → nat_eq u.id q.id ≡ false
    → u.email ≢ q.email
unfolding by_email
other_address u q s own other e =
    let same : q.id ≡ u.id = own q (rw ((eq_iff q.email u.email).1 (sym e))) in ground arith

modify-IsUnique : (u : User) (s : Table) → IsUnique s → IsOwn u s → IsUnique (modify u s)
unfolding modify
modify-IsUnique u [] un own = tt
modify-IsUnique u (q ∷ s) (fresh, free, un) own = elim (Bool-cases (nat_eq u.id q.id)) [
  | inl same ↦
      let id : u.id ≡ q.id = ground arith in
      rw (same, modify_absent u s (ap (by_id s) id ∙ fresh))
        (ap (by_id s) id ∙ fresh, free_after u q s (fresh, free, un) own id, un)
  | inr other ↦ rw other (
    by_id-modify u s q.id ∙ rw other fresh,
    by_email-modify-none u s q.email (other_address u q s own other) free,
    modify-IsUnique u s un (IsOwn-tail u q s (fresh, free, un) own),
  )
]

is_some-ne-none : (o : Option Row) → o ≢ none → is_some o ≡ true
is_some-ne-none none h = absurd (h refl)
is_some-ne-none (some r) h = refl

or_true : (a b : Option Row) → (a ≢ none) ⊎ (b ≢ none) → (is_some a || is_some b) ≡ true
or_true none b (inl h) = absurd (h refl)
or_true (some r) b (inl h) = refl
or_true none b (inr h) = is_some-ne-none b h
or_true (some r) b (inr h) = refl

uuid_text-injective : (m n : ℕ) → uuid_text m ≡ uuid_text n → m ≡ n
uuid_text-injective zero zero h = refl
uuid_text-injective zero (suc n) h = cc
uuid_text-injective (suc m) zero h = cc
uuid_text-injective (suc m) (suc n) h = ap suc (uuid_text-injective m n (tail-eq_of_cons-eq h))

by_text-uuid_text : (s : Table) (i : Uuid) → by_text s (uuid_text i) ≡ by_id s i
unfolding by_text by_id
by_text-uuid_text [] i = refl
by_text-uuid_text (q ∷ s) i = ground (
  arith,
  by_text-uuid_text s i,
  eq_iff (uuid_text q.id) (uuid_text i),
  uuid_text-injective q.id i,
)

by_id-inserted :
    (x : User) (s : Table) (i : Uuid)
    → by_id (inserted x ∷ s) i ≡ (if nat_eq x.id i then some (inserted x) else by_id s i)
unfolding by_id
by_id-inserted x s i = refl

own_free :
    (u : User) (s : Table)
    → IsOwn u s
    → (is_some (by_id s u.id) && held_by_other u.id (by_email s u.email)) ≡ false
own_free u s own = elim (Option-cases (by_email s u.email)) [
  | inl absent ↦ rw absent (ground arith)
  | inr (r, h) ↦ let id = own r h in rw h (ground arith)
]

taken :
    (u : User) (s : Table) (r : Row)
    → by_id s u.id ≢ none
    → by_email s u.email ≡ some r
    → r.id ≢ u.id
    → (is_some (by_id s u.id) && held_by_other u.id (by_email s u.email)) ≡ true
taken u s r exists held differs = rw (is_some-ne-none (by_id s u.id) exists, held) (ground arith)

-- The contract holds of the tables whose rows share no id and no address.
pub memory-IsPostgres : IsPostgres memory uuid_text IsUnique by_id by_email
unfolding memory
memory-IsPostgres = record {
  id_key = λ s u i r h. id_key s i r h;
  email_key = λ s u a r. (email_key_to s u a r, λ h. email_key_from s u a r h.0 h.1);
  select_id = λ s u i. rw by_text-uuid_text;
  select_email = λ s u a. refl;
  insert_new = λ s u x short fresh free.
      rw (short, fresh, free) (refl, (fresh, free, u), λ i. by_id-inserted x s i);
  insert_taken = λ s u x short taken.
      rw (short, or_true (by_id s x.id) (by_email s x.email) taken) ("duplicate key", refl);
  insert_long = λ s un x long. rw long (un, λ i. inl refl);
  update_free = λ s un u short own.
      rw (short, own_free u s own) (refl, modify-IsUnique u s un own, λ i. by_id-modify u s i);
  update_taken = λ s un u r short exists held differs.
      rw (short, taken u s r exists held differs) ("duplicate key", refl);
  delete_done = λ s un u. (refl, remove-IsUnique u.id s un, λ i. by_id-remove u.id s i);
}
