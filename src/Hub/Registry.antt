-- ===== src/Hub/Registry.antt =====
-- The hub of internal/relay/ws.go: a map from persons to maps from devices to connections. A
-- connection is known by its number, as the code compares connections by their address.
use askrelay.Base.{
  Ref, Bool, true, false, Option, none, some, List, [], ◌∷◌, ◌++◌, ◌==◌, if◌then◌else◌,
}

-- A Go map as its entries, each key once.
abbrev pub Entries : Type 0 → Type 0
Entries A = List (Ref × A)

module _ {A : Type 0} where
  abbrev pub get : Ref → Entries A → Option A
  get k [] = none
  get k ((j, a) ∷ m) = if j == k then some a else get k m

  -- `delete(m, k)`
  abbrev pub delete_key : Ref → Entries A → Entries A
  delete_key k [] = []
  delete_key k ((j, a) ∷ m) = if j == k then delete_key k m else (j, a) ∷ delete_key k m

  -- `m[k] = a`
  abbrev pub put : Ref → A → Entries A → Entries A
  put k a m = (k, a) ∷ delete_key k m

abbrev pub Hub : Type 0
Hub = Entries (Entries Ref)

-- A read of a nil map finds nothing.
abbrev pub or_empty : Option (Entries Ref) → Entries Ref
or_empty none = []
or_empty (some m) = m

-- `h.conns[person][device]`
abbrev pub conn_of : Ref → Ref → Hub → Option Ref
conn_of person device h = get device (or_empty (get person h))

-- `add`, with the connection that it closes.
unfoldable pub add : Ref → Ref → Ref → Hub → Hub × Option Ref
add person device c h =
    (put person (put device c (or_empty (get person h))) h, conn_of person device h)

abbrev pub is_conn : Option Ref → Ref → Bool
is_conn none c = false
is_conn (some d) c = d == c

-- `len(byDevice) == 0`
abbrev pub has_no_entry {ℓ} : {A : Type ℓ} → List A → Bool
has_no_entry [] = true
has_no_entry (a ∷ l) = false

-- `delete(byDevice, device)`, and the person's entry if it was the last.
abbrev pub without : Ref → Entries Ref → Hub → Hub
without person rest h = if has_no_entry rest then delete_key person h else put person rest h

-- `remove`
unfoldable pub remove : Ref → Ref → Ref → Hub → Hub
remove person device c h =
    if is_conn (conn_of person device h) c
    then without person (delete_key device (or_empty (get person h))) h
    else h

-- `snapshot`
unfoldable pub snapshot : Ref → Hub → Entries Ref
snapshot person h = or_empty (get person h)

-- `devices`
unfoldable pub devices : Hub → Entries Ref
devices [] = []
devices ((person, m) ∷ h) = m ++ devices h

-- The connections of a map.
abbrev pub conns : Entries Ref → List Ref
conns [] = []
conns ((d, c) ∷ m) = c ∷ conns m

-- `closeAll`, with the connections that it closes.
unfoldable pub close_all : Hub → Hub × List Ref
unfolding devices
close_all h = ([], conns (devices h))
