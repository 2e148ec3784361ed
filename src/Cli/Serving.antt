-- ===== src/Cli/Serving.antt =====
-- src/main.cpp: the usage text and the command serve.
use wirebone_cpp.Prelude.{
  ℕ, Bool, not, List, [], ◌∷◌, ◌++◌, Str, codes, is_empty, Outcome, ok, if◌then◌else◌,
}
use wirebone_cpp.Prelude.Chain.{◌>>=◌}
use wirebone_cpp.Json.{JsonLib}
use wirebone_cpp.IpAlloc.{Inet}
use wirebone_cpp.Crypto.Primitives.{Primitives}
use wirebone_cpp.Store.Types.{PreauthKey}
use wirebone_cpp.Store.Keys.{preauth_keys}
use wirebone_cpp.Socket.Opening.{Answers}
use wirebone_cpp.Coordinator.Connection.{noise_public_text}
use wirebone_cpp.Coordinator.Control.{Config, Impl, Found, new_impl, first_key}
use wirebone_cpp.Coordinator.Lifecycle.{Listener, new_listener, Turn, run}
use wirebone_cpp.Cli.{cfg_from_args}

-- The pieces of a text in a row.
abbrev pub joined_texts : List Str → Str
joined_texts [] = []
joined_texts (t ∷ ts) = t ++ joined_texts ts

-- The dash is in UTF-8.
abbrev pub usage_text : Str
usage_text = joined_texts (
    codes "wirebone "
    ∷ (0xe2 ∷ 0x80 ∷ 0x94 ∷ [])
    ∷ codes " embeddable Tailscale/Headscale-compatible coordinator\n\nUsage:\n"
    ∷ codes "  wirebone serve [--listen HOST:PORT] [--url URL] [--state PATH]\n"
    ∷ codes "                 [--domain NAME] [--dns HOST:PORT]\n"
    ∷ codes "  wirebone preauth create [--state PATH] [--one-shot] [--ephemeral]\n"
    ∷ codes "                          [--token ID] [--shared|--no-shared]\n"
    ∷ codes "  wirebone nodes list [--state PATH]\n"
    ∷ [])

-- The bootstrap key, or else the first key that there is.
unfoldable pub key_line : Str → List PreauthKey → Str
key_line boot ks =
    if not (is_empty boot)
    then joined_texts (codes "preauth key  " ∷ boot ∷ codes "\n" ∷ [])
    else if not (is_empty ks)
    then joined_texts (codes "preauth key  " ∷ first_key ks ∷ codes "\n" ∷ [])
    else []

unfoldable pub serve_text : Config → Str → Impl → Str
serve_text cfg noise_key c = joined_texts (
    codes "wirebone listening on http://"
    ∷ cfg.listen
    ∷ codes "\ncontrol_url  "
    ∷ cfg.server_url
    ∷ codes "\nmagicdns     "
    ∷ cfg.domain
    ∷ codes " via udp "
    ∷ cfg.dns_listen
    ∷ codes "\nnoise key    "
    ∷ noise_key
    ∷ codes "\n"
    ∷ key_line c.bootstrap_key (preauth_keys c.store)
    ∷ codes "QuackScale:\n  CALL quackscale_serve(...)  -- coordinator + client in one process\n"
    ∷ codes "  CALL tailscale_up(control_url => '"
    ∷ cfg.server_url
    ∷ codes "', authkey => '<preauth>', hostname => 'node-a');\n"
    ∷ [])

-- What is printed before the coordinator runs, and what becomes of `run` over the rounds of its
-- accept loop.
unfoldable pub run_serve :
    Primitives
    → JsonLib
    → Inet
    → Found
    → Answers
    → Answers
    → List Turn
    → List Str
    → Outcome (Str × (Outcome (List ℕ × Bool) × Listener))
run_serve p lib inet found tcp udp turns argv = do
  let cfg = cfg_from_args argv
  c ← new_impl lib inet cfg found
  ok (
    serve_text cfg (noise_public_text p c.store.noise_private) c,
    run inet cfg tcp udp turns new_listener,
  )
