-- ===== src/Subscription.antt =====
-- Subscription nodes and the conversion of manifest entries (src/subscription.rs). `serde_yaml` is
-- not modelled: an entry is what it makes of one element of `proxies`, or nothing.
pub mod Parsed
pub mod Cache
use causeway.Prelude.{
  ℕ, ◌+◌, ◌^◌, leb, Bool, true, false, not, ◌&&◌, ◌||◌, Option, none, some, List, [], ◌∷◌, ◌++◌,
  if◌then◌else◌, any,
}
use causeway.Prelude.Text.{Text, codes, text_eq}
use causeway.Prelude.Parse.{parse_uint, trim}

pub record ObfsOpts : Type 0 where
  pub mode : Text
  pub host : Option Text

host_opt : Option Text → Text
host_opt none = []
host_opt (some host) = codes ";obfs-host=" ++ host

pub to_plugin_opts : ObfsOpts → Text
unfolding host_opt
to_plugin_opts o = codes "obfs=" ++ (o.mode ++ host_opt o.host)

pub record SsNode : Type 0 where
  pub name : Text
  pub server : Text
  pub port : ℕ
  pub cipher : Text
  pub password : Text
  pub plugin : Option ObfsOpts

pub record AnytlsNode : Type 0 where
  pub name : Text
  pub server : Text
  pub port : ℕ
  pub password : Text
  pub sni : Option Text
  pub alpn : Option (List Text)
  pub client_fingerprint : Option Text
  pub skip_cert_verify : Bool

pub data Node : Type 0 where
  ss : SsNode → Node
  anytls : AnytlsNode → Node

unfoldable pub name : Node → Text
name (ss n) = n.name
name (anytls n) = n.name

pub server : Node → Text
server (ss n) = n.server
server (anytls n) = n.server

pub port : Node → ℕ
port (ss n) = n.port
port (anytls n) = n.port

pub kind : Node → Text
kind (ss n) = codes "ss"
kind (anytls n) = codes "anytls"

-- A number carries its value, if it is a `u64`, and its printed form.
pub data YamlValue : Type 0 where
  string : Text → YamlValue
  number : Option ℕ → Text → YamlValue
  other : YamlValue

pub record RawPluginOpts : Type 0 where
  pub mode : Option Text
  pub host : Option Text

pub record RawProxy : Type 0 where
  pub kind : Text
  pub name : Option Text
  pub server : Option Text
  pub port : Option YamlValue
  pub cipher : Option Text
  pub password : Option YamlValue
  pub plugin : Option Text
  pub plugin_opts : Option RawPluginOpts
  pub sni : Option Text
  pub alpn : Option (List Text)
  pub client_fingerprint : Option Text
  pub skip_cert_verify : Option Bool

pub yaml_value_to_string : YamlValue → Option Text
yaml_value_to_string (string s) = some s
yaml_value_to_string (number n printed) = some printed
yaml_value_to_string other = none

abbrev u16 : Option ℕ → Option ℕ
u16 none = none
u16 (some n) = if leb n 65535 then some n else none

pub yaml_value_to_port : YamlValue → Option ℕ
yaml_value_to_port (string s) = parse_uint 10 (2 ^ 16) (trim s)
yaml_value_to_port (number n printed) = u16 n
yaml_value_to_port other = none

infixl 5 ◌>>=◌
abbrev ◌>>=◌ : {A B : Type 0} → Option A → (A → Option B) → Option B
none >>= f = none
some a >>= f = f a

abbrev opts_mode : Option RawPluginOpts → Option Text
opts_mode opts = do o ← opts; o.mode

abbrev opts_host : Option RawPluginOpts → Option Text
opts_host opts = do o ← opts; o.host

-- The plugin of an entry: `none` skips the entry.
plugin_of : Option Text → Option RawPluginOpts → Option (Option ObfsOpts)
plugin_of none opts = some none
plugin_of (some p) opts =
    if text_eq p (codes "obfs")
    then (do mode ← opts_mode opts; some (some (record { mode = mode; host = opts_host opts })))
    else none

pub ss_node : RawProxy → Option SsNode
unfolding plugin_of yaml_value_to_port yaml_value_to_string
ss_node proxy = do
  name ← proxy.name
  server ← proxy.server
  port ← (do v ← proxy.port; yaml_value_to_port v)
  cipher ← proxy.cipher
  password ← (do v ← proxy.password; yaml_value_to_string v)
  plugin ← plugin_of proxy.plugin proxy.plugin_opts
  some (record {
    name = name;
    server = server;
    port = port;
    cipher = cipher;
    password = password;
    plugin = plugin;
  })

abbrev or_false : Option Bool → Bool
or_false none = false
or_false (some b) = b

pub anytls_node : RawProxy → Option AnytlsNode
unfolding yaml_value_to_port yaml_value_to_string
anytls_node proxy = do
  name ← proxy.name
  server ← proxy.server
  port ← (do v ← proxy.port; yaml_value_to_port v)
  password ← (do v ← proxy.password; yaml_value_to_string v)
  some (record {
    name = name;
    server = server;
    port = port;
    password = password;
    sni = proxy.sni;
    alpn = proxy.alpn;
    client_fingerprint = proxy.client_fingerprint;
    skip_cert_verify = or_false proxy.skip_cert_verify;
  })

-- What one element of `proxies` turns into.
pub data Entry : Type 0 where
  parsed : Node → Entry
  bad_entry : Entry
  unsupported_type : Entry

abbrev as_entry : {A : Type 0} → (A → Node) → Option A → Entry
as_entry wrap none = bad_entry
as_entry wrap (some n) = parsed (wrap n)

pub entry : Option RawProxy → Entry
unfolding ss_node anytls_node
entry none = bad_entry
entry (some proxy) =
    if text_eq proxy.kind (codes "ss")
    then as_entry ss (ss_node proxy)
    else if text_eq proxy.kind (codes "anytls")
    then as_entry anytls (anytls_node proxy)
    else unsupported_type

pub record Parse : Type 0 where
  pub nodes : List Node
  pub seen : List Text
  pub skipped_type : ℕ
  pub skipped_bad : ℕ

abbrev start : Parse
start = record { nodes = []; seen = []; skipped_type = 0; skipped_bad = 0 }

take_entry : Parse → Entry → Parse
unfolding name
take_entry p bad_entry = record p { skipped_bad = p.skipped_bad + 1 }
take_entry p unsupported_type = record p { skipped_type = p.skipped_type + 1 }
take_entry p (parsed node) =
    if any (λ n. text_eq n (name node)) p.seen
    then p
    else record p { nodes = p.nodes ++ node ∷ []; seen = name node ∷ p.seen }

parse_from : Parse → List (Option RawProxy) → Parse
unfolding take_entry entry
parse_from p [] = p
parse_from p (value ∷ values) = parse_from (take_entry p (entry value)) values

-- The loop of `parse_str_with_logging`.
pub parse_proxies : List (Option RawProxy) → Parse
unfolding parse_from
parse_proxies values = parse_from start values
