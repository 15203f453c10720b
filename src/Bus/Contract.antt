-- ===== src/Bus/Contract.antt =====
-- What the domain expects of a user store: the users by their ids, with unique addresses. `find` is
-- the abstract view, `IsUp` says that the store can be reached and that what it holds is readable.
use Prim.Native.String.{count}
use jumble.Shared.{
  String, Bool, true, false, leb, ◌&&◌, ◌/◌, ◌*◌, ◌≡◌, ◌≢◌, ◌⊎◌, ◌↔◌, Option, none, some, nat_eq,
  if◌then◌else◌, All,
}
use mathlib.Core.Option
use jumble.Go.Error.{Result, ok, err, sentinel, err_duplicated_email, err_user_not_found}
use jumble.Bus.Roles.Laws.{IsRole}
use jumble.Bus.Models.{Uuid, Address, User, Time}
use jumble.Bus.Store.{Store}

-- The texts have the lengths that the columns of the schema take, in characters.
abbrev pub is_storable : User → Bool
is_storable usr =
    leb (count usr.name) 200 && leb (count usr.email.address) 300 && leb (count usr.department) 100

-- A time to the microsecond, as a column of the schema keeps it; times are nanoseconds.
abbrev pub to_microsecond : Time → Time
to_microsecond t = (t / 1000) * 1000

-- A stored user's display name is its name, since the one in its mail address is not kept, and its
-- times are kept to the microsecond.
abbrev pub stored : User → User
stored usr = record usr {
  email = record { name = usr.name; address = usr.email.address };
  created_at = to_microsecond usr.created_at;
  updated_at = to_microsecond usr.updated_at;
}

-- An update keeps the time of creation.
abbrev pub replaced : User → User → User
replaced usr old = record (stored usr) { created_at = old.created_at }

abbrev pub found : Option User → Result User
found none = err (sentinel err_user_not_found)
found (some usr) = ok usr

module _ {S : Type 0} where
  pub record IsUserStore (st : Store S) (IsUp : S → Type 0) (find : S → Uuid → Option User)
      (holder : S → String → Option User) : Type 0 where
    -- the user who holds an address
    pub holder_iff :
        (s : S)
        → IsUp s
        → (a : String) (usr : User)
        → (holder s a ≡ some usr) ↔ ((find s usr.id ≡ some usr) × (usr.email.address ≡ a))
    pub by_id : (s : S) → IsUp s → (i : Uuid) → st.query_by_id i s ≡ found (find s i)
    pub by_email :
        (s : S) → IsUp s → (a : Address) → st.query_by_email a s ≡ found (holder s a.address)
    pub create_new :
        (s : S)
        → IsUp s
        → (usr : User) → All IsRole usr.roles
        → is_storable usr ≡ true
        → find s usr.id ≡ none
        → holder s usr.email.address ≡ none
        → ((st.create usr s).0 ≡ none)
          × IsUp (st.create usr s).1
          × ((i : Uuid)
              → find (st.create usr s).1 i
                ≡ (if nat_eq usr.id i then some (stored usr) else find s i))
    pub create_taken :
        (s : S)
        → IsUp s
        → (usr : User) → is_storable usr ≡ true
        → (find s usr.id ≢ none) ⊎ (holder s usr.email.address ≢ none)
        → st.create usr s ≡ (some (sentinel err_duplicated_email), s)
    -- A user with a text that is too long, whether it is refused or cut: no other id is affected,
    -- nor a user who is stored under its id.
    pub create_long :
        (s : S)
        → IsUp s
        → (usr : User) → All IsRole usr.roles
        → is_storable usr ≡ false
        → IsUp (st.create usr s).1
          × ((i : Uuid)
              → (find (st.create usr s).1 i ≡ find s i) ⊎ ((usr.id ≡ i) × (find s i ≡ none)))
    pub update_free :
        (s : S)
        → IsUp s
        → (usr : User) → All IsRole usr.roles
        → is_storable usr ≡ true
        → ((other : User) → holder s usr.email.address ≡ some other → other.id ≡ usr.id)
        → ((st.update usr s).0 ≡ none)
          × IsUp (st.update usr s).1
          × ((i : Uuid)
              → find (st.update usr s).1 i
                ≡ (if nat_eq usr.id i then Option.map (replaced usr) (find s i) else find s i))
    pub update_taken :
        (s : S)
        → IsUp s
        → (usr other : User) → is_storable usr ≡ true
        → find s usr.id ≢ none
        → holder s usr.email.address ≡ some other
        → other.id ≢ usr.id
        → st.update usr s ≡ (some (sentinel err_duplicated_email), s)
    pub delete_done :
        (s : S)
        → IsUp s
        → (usr : User)
        → ((st.delete usr s).0 ≡ none)
          × IsUp (st.delete usr s).1
          × ((i : Uuid) → find (st.delete usr s).1 i ≡ (if nat_eq usr.id i then none else find s i))
