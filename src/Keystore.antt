-- ===== src/Keystore.antt =====
-- pkg/keystore/keystore.go: the keys in memory, loaded from PEM files. The file system is a tree
-- that a walk visits in order; PEM and x509 are parameters.
pub mod Laws
pub mod Locking
use Prim.Native.String.{[], ◌∷◌}
use jumble.Shared.{
  ℕ, zero, suc, ◌*◌, code, String, Bool, true, false, not, Option, none, some, List, [], ◌∷◌,
  length, lookup, insert, nat_eq, ◌==◌, if◌then◌else◌,
}
use jumble.Go.Error.{Error, Result, ok, err, plain, wrap, sentinel, err_key_not_found, context}
use jumble.Go.Text.{◌^^◌, has_prefix, trim_space}

pub record Key (Private Public : Type 0) : Type 0 where
  pub private : Private
  pub public : Public

pub record KeyStore (Private Public : Type 0) : Type 0 where
  pub store : List (String × Key Private Public)
  pub active_key : String

-- encoding/pem and crypto/x509. A PKCS#8 key that is no RSA key is `none`.
pub record Pem (Private Public : Type 0) : Type 0 where
  pub decode : String → Option (String × String)
  pub parse_pkcs1 : String → Result Private
  pub parse_pkcs8 : String → Result (Option Private)
  pub public_of : Private → Public

-- A file: the error of opening it, or what reading it gives.
pub data File : Type 0 where
  unopened : Error → File
  unread : Error → File
  bytes : String → File

-- A directory's name, the error of reading it, if any, and its entries in lexical order.
mutual
  pub data Entry : Type 0 where
    file : String → File → Entry
    dir : String → Option Error → Entries → Entry

  pub data Entries : Type 0 where
    nil : Entries
    cons : Entry → Entries → Entries

abbrev name_of : Entry → String
name_of (file name f) = name
name_of (dir name problem entries) = name

-- filepath.Ext of a name: from the last dot on
last_dot : String → Option String
last_dot [] = none
last_dot (c ∷ s) = elim (last_dot s) [
  | some e ↦ some e
  | none ↦ if nat_eq (code c) b'.' then some (c ∷ s) else none
]

text_or_empty : Option String → String
text_or_empty none = ""
text_or_empty (some s) = s

unfoldable pub ext : String → String
unfolding last_dot text_or_empty
ext name = text_or_empty (last_dot name)

-- strings.TrimSuffix
unfoldable pub trim_suffix : String → String → String
trim_suffix suffix [] = []
trim_suffix suffix (c ∷ s) =
    let rest = trim_suffix suffix s in if (c ∷ s) == suffix then [] else c ∷ rest

abbrev pub max_pem_size : ℕ
max_pem_size = 1024 * 1024

-- io.LimitReader
unfoldable pub limit : ℕ → String → String
limit zero s = []
limit (suc n) [] = []
limit (suc n) (c ∷ s) = c ∷ limit n s

-- filename without its extension: the id of the key
unfoldable pub key_id : String → String
key_id name = trim_space (trim_suffix ".pem" name)

module _ {Private Public : Type 0} (pem : Pem Private Public) where
  abbrev Store : Type 0
  Store = KeyStore Private Public

  rsa_key : Result (Option Private) → Result Private
  rsa_key (err e) = err (wrap "failed to parse private key as PKCS1 or PKCS8" e)
  rsa_key (ok none) = err (plain "key is not a valid rsa private key")
  rsa_key (ok (some k)) = ok k

  -- PKCS#1, and then PKCS#8
  parse_key : String → Result Private
  parse_key block = elim (pem.parse_pkcs1 block) [
    | ok k ↦ ok k
    | err e ↦ rsa_key (pem.parse_pkcs8 block)
  ]

  private_key_of : Option (String × String) → Result Private
  private_key_of none = err (plain "invalid pem bytes: key must be either in PKCS1 or PKCS8")
  private_key_of (some (kind, block)) =
      if kind == "PRIVATE KEY"
      then parse_key block
      else err (plain "invalid pem bytes: key must be either in PKCS1 or PKCS8")

  -- The private key in a file.
  read_key : String → File → Result Private
  read_key path (unopened e) = err (wrap ("openning file " ^^ path) e)
  read_key path (unread e) = err (wrap "readAll" e)
  read_key path (bytes b) = private_key_of (pem.decode (limit max_pem_size b))

  unfoldable pub add_key : String → Private → Store → Store
  add_key name k ks = record ks {
    store = insert (key_id name) (record { private = k; public = pem.public_of k }) ks.store;
  }

  -- The error of the walk so far, and the store after it.
  added : String → Result Private → Store → Option Error × Store
  added name (ok k) ks = (none, add_key name k ks)
  added name (err e) ks = (some e, ks)

  -- The walker on a file.
  unfoldable pub walk_file : String → String → File → Store → Option Error × Store
  unfolding read_key private_key_of parse_key rsa_key added
  walk_file path name f ks =
      if ext name == ".pem" then added name (read_key path f) ks else (none, ks)

  abbrev then_walk : Option Error × Store → (Store → Option Error × Store) → Option Error × Store
  then_walk r next = elim r.0 [ none ↦ next r.1 | some e ↦ (some e, r.1) ]

  join_path : String → String → String
  join_path parent name = if parent == "." then name else parent ^^ ("/" ^^ name)

  -- A directory that cannot be read is handed to the walker with the error.
  opened : String → Option Error → (Store → Option Error × Store) → Store → Option Error × Store
  opened path none next ks = next ks
  opened path (some e) next ks = (some (wrap ("opening " ^^ path) e), ks)

  -- fs.WalkDir with the walker, which skips the directories whose names begin with "..".
  mutual
    pub walk_entry : String → Entry → Store → Option Error × Store
    walk_entry path (file name f) ks = walk_file path name f ks
    walk_entry path (dir name problem entries) ks =
        let inside = opened path problem (walk_entries path entries) ks in
        if has_prefix name ".." then (none, ks) else inside

    pub walk_entries : String → Entries → Store → Option Error × Store
    walk_entries path nil ks = (none, ks)
    walk_entries path (cons e es) ks =
        then_walk (walk_entry (join_path path (name_of e)) e ks) (walk_entries path es)

  loaded : Option Error × Store → Result ℕ × Store
  loaded (none, ks) = (ok (length ks.store), ks)
  loaded (some e, ks) = (err (wrap "walkDir" e), ks)

  -- LoadFromFileSystem, on the root directory
  unfoldable pub load_from_file_system : Entry → Store → Result ℕ × Store
  unfolding loaded
  load_from_file_system root ks = loaded (walk_entry "." root ks)

module _ {Private Public : Type 0} where
  unfoldable pub new : KeyStore Private Public
  new = record { store = []; active_key = "" }

  found : Option (Key Private Public) → Result (Key Private Public)
  found none = err (sentinel err_key_not_found)
  found (some k) = ok k

  private_of : Result (Key Private Public) → Result Private
  private_of (ok k) = ok k.private
  private_of (err e) = err e

  public_of_key : Result (Key Private Public) → Result Public
  public_of_key (ok k) = ok k.public
  public_of_key (err e) = err e

  unfoldable pub private_key : KeyStore Private Public → String → Result Private
  unfolding found private_of
  private_key ks kid = private_of (found (lookup kid ks.store))

  unfoldable pub public_key : KeyStore Private Public → String → Result Public
  unfolding found public_of_key
  public_key ks kid = public_of_key (found (lookup kid ks.store))

  -- The first critical section of SetActiveKey.
  unfoldable pub is_known : KeyStore Private Public → String → Bool
  is_known ks key = elim (lookup key ks.store) [ none ↦ false | some k ↦ true ]

  -- The second.
  unfoldable pub activate : String → KeyStore Private Public → KeyStore Private Public
  activate key ks = record ks { active_key = key }

  unfoldable pub set_active_key :
      String → KeyStore Private Public → Option Error × KeyStore Private Public
  unfolding is_known activate
  set_active_key key ks =
      if is_known ks key
      then (none, activate key ks)
      else (some (plain ("key[" ^^ (key ^^ "] not found in keystore"))), ks)

  unfoldable pub get_active_kid : KeyStore Private Public → String
  get_active_kid ks = ks.active_key
