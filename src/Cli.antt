-- ===== src/Cli.antt =====
-- src/main.cpp: the options of the command line and what a command does.
pub mod Serving
use wirebone_cpp.Prelude.{
  ℕ, ℤ, Bool, true, false, not, Option, none, some, List, [], ◌∷◌, ◌++◌, Str, codes, str_eq,
  Outcome, ok, if◌then◌else◌,
}
use wirebone_cpp.Prelude.Decimal.{to_string}
use wirebone_cpp.Prelude.Chain.{◌>>=◌}
use wirebone_cpp.Json.{JsonLib}
use wirebone_cpp.IpAlloc.{Inet}
use wirebone_cpp.Coordinator.Control.{
  Config, default_config, PreauthOptions, default_options, NodeInfo, Impl, Found, new_impl,
  create_key, list_nodes,
}

-- The word behind the first `name` that is not the last word.
unfoldable pub opt : Str → Str → List Str → Str
opt name def [] = def
opt name def (a ∷ []) = def
opt name def (a ∷ b ∷ argv) = if str_eq a name then b else opt name def (b ∷ argv)

unfoldable pub flag : Str → List Str → Bool
flag name [] = false
flag name (a ∷ argv) = if str_eq a name then true else flag name argv

unfoldable pub cfg_from_args : List Str → Config
cfg_from_args argv = record default_config {
  listen = opt (codes "--listen") (codes "0.0.0.0:8080") argv;
  server_url = opt (codes "--url") (codes "http://127.0.0.1:8080") argv;
  state_path = opt (codes "--state") (codes "wirebone.state.json") argv;
  domain = opt (codes "--domain") (codes "wirebone.local") argv;
  dns_listen = opt (codes "--dns") (codes "0.0.0.0:5353") argv;
}

unfoldable pub options_from_args : List Str → PreauthOptions
options_from_args argv = record default_options {
  reusable = not (flag (codes "--one-shot") argv);
  ephemeral = flag (codes "--ephemeral") argv;
  token = opt (codes "--token") [] argv;
  shared =
      if flag (codes "--shared") argv
      then some true
      else if flag (codes "--no-shared") argv
      then some false
      else none;
}

pub data Command : Type 0 where
  serve preauth_create nodes_list usage : Command

-- The command that the words behind the program's name give.
unfoldable pub command : List Str → Command
command [] = Command.usage
command (a ∷ []) = if str_eq a (codes "serve") then Command.serve else Command.usage
command (a ∷ b ∷ argv) =
    if str_eq a (codes "serve")
    then Command.serve
    else if str_eq a (codes "preauth")
    then (if str_eq b (codes "create") then Command.preauth_create else Command.usage)
    else if str_eq a (codes "nodes")
    then (if str_eq b (codes "list") then Command.nodes_list else Command.usage)
    else Command.usage

-- What is printed of a node.
unfoldable pub node_line : NodeInfo → Str
node_line n =
    to_string n.id
    ++ (codes "\t"
        ++ (n.hostname
            ++ (codes "\t"
                ++ (n.ipv4
                    ++ (codes "\t"
                        ++ (n.ipv6
                            ++ (codes "\t"
                                ++ (n.node_key
                                    ++ (codes "\t"
                                        ++ (n.token
                                            ++ (codes "\t"
                                                ++ ((if n.shared then codes "shared" else [])
                                                    ++ codes "\n"))))))))))))

abbrev pub node_lines : List NodeInfo → Str
node_lines [] = []
node_lines (n ∷ ns) = node_line n ++ node_lines ns

module _ (lib : JsonLib) (inet : Inet) where
  -- `preauth create`: what is printed, and the coordinator that is left; `raw` and `now` are for the
  -- key that is asked for.
  unfoldable pub run_preauth_create :
      Found → Option (List ℕ) → ℤ → List Str → Outcome (Outcome Str × Impl)
  run_preauth_create found raw now argv = do
    c ← new_impl lib inet (cfg_from_args argv) found
    ok (create_key lib raw now (options_from_args argv) c)

  -- `nodes list`
  unfoldable pub run_nodes_list : Found → List Str → Outcome Str
  run_nodes_list found argv = do
    c ← new_impl lib inet (cfg_from_args argv) found
    ok (node_lines (list_nodes c))
