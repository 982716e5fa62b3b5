-- ===== src/Registry.antt =====
-- The sessions of the daemon: MbDaemon of src/mb-session.c, with its two hash tables over shared
-- sessions. A pointer is a number, a table a function, and the heap gives what a pointer stands
-- for, or `none` once it was freed. A use of a freed session is `none` as the result.
pub mod Tables
pub mod Paths
pub mod Valid
pub mod Ensure
pub mod Dangling
pub mod Removal
use Prim.Native.String.{String}
use text.Mathlib.Text.{◌==◌}
use midi_ble_rt.Base.{ℕ, ◌+◌, Bool, true, false, not, ◌&&◌, leb, Option, none, some, if◌then◌else◌}
use midi_ble_rt.Session.{Session, init, set_identity}

-- MbDaemon, and what it points to
pub record Registry : Type 0 where
  pub heap : ℕ → Option Session
  pub next : ℕ  -- no session stands there or above
  pub by_path : String → Option ℕ
  pub by_address : String → Option ℕ

abbrev pub same_pointer : ℕ → ℕ → Bool
same_pointer s t = leb s t && leb t s

-- A table in which the value of a key was replaced, inserted or removed.
abbrev pub assign : (String → Option ℕ) → String → Option ℕ → String → Option ℕ
assign table key value k = if k == key then value else table k

abbrev pub store : (ℕ → Option Session) → ℕ → Option Session → ℕ → Option Session
store heap s value t = if same_pointer t s then value else heap t

-- `mb_daemon_init`
abbrev pub daemon_init : Registry
daemon_init = record { heap = λ s. none; next = 0; by_path = λ k. none; by_address = λ k. none }

-- `if (text && *text)`
abbrev pub with_text : Option String → Registry → (String → Registry) → Registry
with_text none r f = r
with_text (some t) r f = if t == "" then r else f t

abbrev pub is_pointer : Option ℕ → ℕ → Bool
is_pointer none s = false
is_pointer (some t) s = same_pointer t s

-- `g_strcmp0 (text, other) == 0`, for a text that is there
abbrev pub same_text : String → Option String → Bool
same_text t none = false
same_text t (some u) = t == u

-- `mb_daemon_steal_path_index`
unfoldable pub steal_path_index : Registry → String → ℕ → Registry
steal_path_index r path s =
    if is_pointer (r.by_path path) s then record r { by_path = assign r.by_path path none } else r

-- `g_hash_table_replace` of the table that owns its sessions frees the one that stood there.
abbrev pub replace_path : Registry → String → ℕ → Option ℕ → Registry
replace_path r path s none = record r { by_path = assign r.by_path path (some s) }
replace_path r path s (some t) = record r {
  heap = store r.heap t none;
  by_path = assign r.by_path path (some s);
}

-- `mb_daemon_reindex_device_path`, of the session `s`, whose path is now `path`
unfoldable pub reindex_device_path : Registry → ℕ → Option String → Option String → Registry
unfolding steal_path_index
reindex_device_path r s path old =
    let stolen = with_text old r (λ o. if same_text o path then r else steal_path_index r o s) in
    with_text path stolen (λ p.
      if is_pointer (stolen.by_path p) s
      then stolen
      else replace_path stolen p s (stolen.by_path p))

-- `mb_daemon_reindex_address`
unfoldable pub reindex_address : Registry → ℕ → Option String → Option String → Registry
reindex_address r s address old =
    let removed = with_text old r (λ o. record r { by_address = assign r.by_address o none }) in
    with_text address removed
      (λ a. record removed { by_address = assign removed.by_address a (some s) })

-- The session that the address names is moved to the path.
unfoldable pub ensure_by_address :
    Registry → ℕ → Option Session → String → Option String → Option String → Option (Registry × ℕ)
unfolding reindex_device_path reindex_address
ensure_by_address r s none path address name = none
ensure_by_address r s (some x) path address name =
    let y = set_identity x (some path) address name in
    let written = record r { heap = store r.heap s (some y) } in
    let moved = reindex_device_path written s y.device_path x.device_path in
    some (reindex_address moved s y.address x.address, s)

-- The session that stands at the path takes the address.
unfoldable pub ensure_by_path :
    Registry → ℕ → Option Session → String → Option String → Option String → Option (Registry × ℕ)
unfolding reindex_address
ensure_by_path r s none path address name = none
ensure_by_path r s (some x) path address name =
    let y = set_identity x (some path) address name in
    let written = record r { heap = store r.heap s (some y) } in
    some (reindex_address written s y.address x.address, s)

unfoldable pub add_session : Registry → String → Option String → Option String → Registry × ℕ
add_session r path address name =
    let x = init (some path) address name in
    let added = record r {
      heap = store r.heap r.next (some x);
      next = r.next + 1;
      by_path = assign r.by_path path (some r.next);
    } in
    (
      with_text x.address added
          (λ a. record added { by_address = assign added.by_address a (some r.next) }),
      r.next,
    )

-- The lookup of `mb_daemon_ensure_session`.
abbrev pub known_by_address : Registry → Option String → Option ℕ
known_by_address r none = none
known_by_address r (some a) = if a == "" then none else r.by_address a

abbrev pub ensure_at_path :
    Registry → Option ℕ → String → Option String → Option String → Option (Registry × ℕ)
ensure_at_path r (some s) path address name = ensure_by_path r s (r.heap s) path address name
ensure_at_path r none path address name = some (add_session r path address name)

abbrev pub ensure_found :
    Registry → Option ℕ → String → Option String → Option String → Option (Registry × ℕ)
ensure_found r (some s) path address name = ensure_by_address r s (r.heap s) path address name
ensure_found r none path address name = ensure_at_path r (r.by_path path) path address name

-- `mb_daemon_ensure_session`, for a path that is not empty
unfoldable pub ensure_session :
    Registry → String → Option String → Option String → Option (Registry × ℕ)
ensure_session r path address name = ensure_found r (known_by_address r address) path address name

abbrev remove_at : Registry → String → ℕ → Option Session → Option (Bool × Registry)
remove_at r path s none = none
remove_at r path s (some x) =
    let removed =
      with_text x.address r (λ a. record r { by_address = assign r.by_address a none }) in
    some (true, record removed { heap = store r.heap s none; by_path = assign r.by_path path none })

abbrev remove_found : Registry → String → Option ℕ → Option (Bool × Registry)
remove_found r path none = some (false, r)
remove_found r path (some s) = remove_at r path s (r.heap s)

-- `mb_daemon_remove_session_by_device_path`
unfoldable pub remove_session : Registry → String → Option (Bool × Registry)
remove_session r path = remove_found r path (r.by_path path)
