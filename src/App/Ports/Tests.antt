-- ===== src/App/Ports/Tests.antt =====
-- The port of the server at concrete inputs.
use myworktree.Prelude.{
  ◌≡◌, refl, Bool, true, false, none, some, pos, negsuc, trim_space, arith, Option,
}
use myworktree.App.Ports.{
  ServerConfig, ServerCodec, Machine, at_port, resolve_repo_listen_addr, resolve_read,
  read_repo_listen_port, allocate_repo_listen_addr, allocated, write_repo_listen_port,
  resolve_error,
}
use myworktree.App.Ports.Kept.{resolve-Kept}

-- A file holds a configuration, or is damaged.
decode : Option ServerConfig → Bool × ServerConfig
decode none = (false, record { listen_port = pos 0; instance_id = "" })
decode (some cfg) = (true, cfg)

decode-some : (cfg : ServerConfig) → decode (some cfg) ≡ (true, cfg)
unfolding decode
decode-some cfg = refl

abbrev codec : ServerCodec (Option ServerConfig)
codec = record { encode_config = some; decode_config = decode; decode-encode_config = decode-some }

abbrev machine : Machine
machine = record {
  read_fails = false;
  can_listen_tcp = λ host p. true;
  probe = λ host. some 40123;
  write_fails = false;
  generate_instance_id = "one";
}

-- a port that is out of range
abbrev edited : Option (Option ServerConfig)
edited = some (some (record { listen_port = negsuc 4; instance_id = "zero" }))

abbrev after : Option (Option ServerConfig)
after = some (some (record { listen_port = pos 40123; instance_id = "zero" }))

allocated_once :
    resolve_repo_listen_addr codec machine (some ("127.0.0.1", "0")) edited
    ≡ (at_port "127.0.0.1" 40123, after)
unfolding resolve_repo_listen_addr resolve_read read_repo_listen_port allocate_repo_listen_addr
    allocated write_repo_listen_port decode trim_space
allocated_once = refl

-- A file that is damaged is not replaced.
damaged :
    resolve_repo_listen_addr codec machine (some ("127.0.0.1", "0")) (some none)
    ≡ (resolve_error, some none)
unfolding resolve_repo_listen_addr resolve_read read_repo_listen_port decode trim_space
damaged = refl

resolve-Kept_example :
    resolve_repo_listen_addr codec machine (some ("127.0.0.1", "0")) after
    ≡ (at_port "127.0.0.1" 40123, after)
unfolding resolve_repo_listen_addr resolve_read read_repo_listen_port allocate_repo_listen_addr
    allocated write_repo_listen_port decode trim_space
resolve-Kept_example =
    resolve-Kept codec machine machine (λ host p e. ground (arith, e)) "127.0.0.1" "0" refl edited
      "127.0.0.1" 40123 refl refl refl
