-- ===== src/App/Ports.antt =====
-- The port of a repository's server in internal/app/app.go: `resolveRepoListenAddr`,
-- `allocateRepoListenAddr`, `readRepoListenPort` and `writeRepoListenPort`. An address is taken as what
-- `net.SplitHostPort` makes of it, and given as a host with a port.
pub mod Kept
mod Tests
use myworktree.Prelude.{
  ℕ, Bool, true, false, not, ◌&&◌, Option, none, some, String, List, ℤ, pos, negsuc, ltb, leb,
  str_eq, trim_space, if◌then◌else◌, ◌≡◌,
}

pub record ServerConfig : Type 0 where
  pub listen_port : ℤ
  pub instance_id : String

abbrev no_config : ServerConfig
no_config = record { listen_port = pos 0; instance_id = "" }

-- encoding/json on `ServerConfig`, for the texts of a file. Decoding gives the fields that it has filled and whether it succeeds.
pub record ServerCodec (Text : Type 0) : Type 0 where
  pub encode_config : ServerConfig → Text
  pub decode_config : Text → Bool × ServerConfig
  pub decode-encode_config : (cfg : ServerConfig) → decode_config (encode_config cfg) ≡ (true, cfg)

-- What the machine answers: whether reading server.json fails (that it is missing aside), whether a host and
-- port can be listened on, the port it gives for 0, whether a step of the write fails, and a fresh id.
pub record Machine : Type 0 where
  pub read_fails : Bool
  pub can_listen_tcp : String → ℕ → Bool
  pub probe : String → Option ℕ
  pub write_fails : Bool
  pub generate_instance_id : String

pub data PortRead : Type 0 where
  port_read : ℕ → PortRead
  invalid_port : PortRead
  port_error : PortRead

abbrev port_of : ℤ → PortRead
port_of (pos n) = if leb 1 n && leb n 65535 then port_read n else invalid_port
port_of (negsuc n) = invalid_port

abbrev port_in : Bool × ServerConfig → PortRead
port_in (false, cfg) = port_error
port_in (true, cfg) = port_of cfg.listen_port

pub data Resolved : Type 0 where
  as_given : Resolved
  at_port : String → ℕ → Resolved
  resolve_error : Resolved

module _ {Text : Type 0} (c : ServerCodec Text) where
  -- on the content of server.json, `none` where there is no file
  unfoldable pub read_repo_listen_port : Machine → Option Text → PortRead
  read_repo_listen_port m none = if m.read_fails then port_error else port_read 0
  read_repo_listen_port m (some b) =
      if m.read_fails then port_error else port_in (c.decode_config b)

  abbrev kept_config : Machine → Option Text → ServerConfig
  kept_config m none = no_config
  kept_config m (some b) = if m.read_fails then no_config else (c.decode_config b).1

  abbrev named_config : Machine → ℕ → ServerConfig → ServerConfig
  named_config m p cfg = record {
    listen_port = pos p;
    instance_id = if str_eq cfg.instance_id "" then m.generate_instance_id else cfg.instance_id;
  }

  -- whether it succeeds, and server.json after it
  unfoldable pub write_repo_listen_port : Machine → ℕ → Option Text → Bool × Option Text
  write_repo_listen_port m p file =
      if m.write_fails
      then (false, file)
      else (true, some (c.encode_config (named_config m p (kept_config m file))))

  abbrev written_at : String → ℕ → Bool × Option Text → Resolved × Option Text
  written_at host p (false, file) = (resolve_error, file)
  written_at host p (true, file) = (at_port host p, file)

  -- with the port that the probe gives
  unfoldable pub allocated : Machine → String → Option ℕ → Option Text → Resolved × Option Text
  allocated m host none file = (resolve_error, file)
  allocated m host (some p) file = written_at host p (write_repo_listen_port m p file)

  unfoldable pub allocate_repo_listen_addr : Machine → String → Option Text → Resolved × Option Text
  unfolding allocated
  allocate_repo_listen_addr m host file = allocated m host (m.probe host) file

  unfoldable pub resolve_read : Machine → String → PortRead → Option Text → Resolved × Option Text
  resolve_read m host port_error file = (resolve_error, file)
  resolve_read m host invalid_port file = allocate_repo_listen_addr m host file
  resolve_read m host (port_read p) file =
      if ltb 0 p && m.can_listen_tcp host p
      then (at_port host p, file)
      else allocate_repo_listen_addr m host file

  unfoldable pub resolve_repo_listen_addr :
      Machine → Option (String × String) → Option Text → Resolved × Option Text
  unfolding resolve_read
  resolve_repo_listen_addr m none file = (as_given, file)
  resolve_repo_listen_addr m (some (host, port)) file =
      if str_eq (trim_space port) "0"
      then resolve_read m host (read_repo_listen_port m file) file
      else (as_given, file)
