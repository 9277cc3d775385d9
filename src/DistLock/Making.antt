-- ===== src/DistLock/Making.antt =====
-- server/pkg/distlock/distlock.go: the options of a lock, and what makes one. `Host` is what the host and
-- the Redis server answer; a duration counts nanoseconds.
use moblog_cloud.Prelude.{
  ℕ, ◌*◌, ◌/◌, GoString, codes, ◌==◌, nat_eq, ◌++◌, some, [], message, wrap, Result, ok, err, panic,
  wrap_err, ◌>>=◌, if◌then◌else◌,
}
use moblog_cloud.DistLock.{Lock}

-- The options; the client that they have is the connection of the other operations.
pub record Options : Type 0 where
  pub name : GoString
  pub refresh_interval : ℕ
  pub expiration_delay : ℕ

abbrev pub default_refresh_interval : ℕ
default_refresh_interval = 5 * 1000000000

abbrev pub default_expiration_delay : ℕ
default_expiration_delay = 5 * default_refresh_interval

-- With the outcome of parsing the URL.
abbrev pub default_options : Result (Unit {0}) → GoString → Result Options
default_options (err e) name = err (wrap e (codes "Error while parsing Redis URL"))
default_options panic name = panic
default_options (ok _) name = ok (record {
  name = name;
  refresh_interval = default_refresh_interval;
  expiration_delay = default_expiration_delay;
})

pub record Host : Type 0 where
  pub hostname : Result GoString
  pub acquire_script_sha : Result GoString
  pub release_script_sha : Result GoString
  pub uuid : GoString

abbrev pub with_defaults : Options → Options
with_defaults options = record options {
  refresh_interval =
      if nat_eq options.refresh_interval 0
      then default_refresh_interval
      else options.refresh_interval;
  expiration_delay =
      if nat_eq options.expiration_delay 0
      then default_expiration_delay
      else options.expiration_delay;
}

-- The lock of a node, and the options that it keeps. The delay is passed on in milliseconds.
abbrev pub made : Options → GoString → Options × Lock
made options node_id = (
  options,
  record {
    id = node_id;
    expiration_delay = options.expiration_delay / 1000000;
    master = 0;
    master_channel = some [];
  },
)

-- The ticker ticks once at once, and then at every refresh interval.
unfoldable pub new : Host → Options → Result (Options × Lock)
new host options =
    let made_lock = (do
      hostname ← wrap_err host.hostname (codes "Error while getting hostname")
      _ ← wrap_err host.acquire_script_sha (codes "Error while loading lock acquire script")
      _ ← wrap_err host.release_script_sha (codes "Error while loading lock release script")
      ok (made (with_defaults options) (hostname ++ codes "-" ++ host.uuid))) in
    if options.name == [] then err (message (codes "Lock name cannot be empty")) else made_lock
