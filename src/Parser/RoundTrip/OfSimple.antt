-- ===== src/Parser/RoundTrip/OfSimple.antt =====
-- The commands whose words are read one by one.
use flatimage.Base.{◌≡◌, [], ◌∷◌, refl, ok}
use flatimage.Text.{Text, codes, starts_with, text_eq, to_upper, enum_from_string}
use flatimage.Reserved.Small.{bwrap, overlayfs, unionfs, none_type}
use flatimage.Parser.Env
use flatimage.Parser.Layer
use flatimage.Parser.Switches
use flatimage.Parser.Boot
use flatimage.Parser.Remote
use flatimage.Parser.Overlay
use flatimage.Parser.Version
use flatimage.Parser.Command.{
  parse, fim_command_from_string, env_cmd, layer_cmd, notify_cmd, casefold_cmd, boot_cmd,
  remote_cmd, overlay_cmd, version_cmd,
}
use flatimage.Parser.Words.{
  env_words, EnvSome, layer_words, notify_words, casefold_words, boot_words, remote_words,
  overlay_words, version_words,
}

-- Every fim-env command with a variable is read back.
pub parse-env_words :
    (argv0 : Text) (c : Env.CmdEnv)
    → EnvSome c
    → parse (argv0 ∷ codes "fim-env" ∷ env_words c) ≡ ok (env_cmd c)
unfolding parse fim_command_from_string starts_with text_eq to_upper enum_from_string Env.parse_env
    Env.process_variables
parse-env_words argv0 Env.clear h = refl
parse-env_words argv0 Env.list h = refl
parse-env_words argv0 (Env.add (v ∷ vs)) h = refl
parse-env_words argv0 (Env.del (v ∷ vs)) h = refl
parse-env_words argv0 (Env.set (v ∷ vs)) h = refl
parse-env_words argv0 (Env.add []) h = elim h [ ]
parse-env_words argv0 (Env.del []) h = elim h [ ]
parse-env_words argv0 (Env.set []) h = elim h [ ]

-- Every fim-layer command is read back from its command line.
pub parse-layer_words :
    (argv0 : Text) (c : Layer.CmdLayer)
    → parse (argv0 ∷ codes "fim-layer" ∷ layer_words c) ≡ ok (layer_cmd c)
unfolding parse fim_command_from_string starts_with text_eq to_upper enum_from_string
    Layer.parse_layer
parse-layer_words argv0 (Layer.add path) = refl
parse-layer_words argv0 (Layer.commit Layer.binary) = refl
parse-layer_words argv0 (Layer.commit Layer.layer) = refl
parse-layer_words argv0 (Layer.commit (Layer.file path)) = refl
parse-layer_words argv0 (Layer.create dir path) = refl
parse-layer_words argv0 Layer.list = refl

pub parse-notify_words :
    (argv0 : Text) (c : Switches.CmdNotify)
    → parse (argv0 ∷ codes "fim-notify" ∷ notify_words c) ≡ ok (notify_cmd c)
unfolding parse fim_command_from_string starts_with text_eq to_upper enum_from_string
    Switches.parse_notify
parse-notify_words argv0 (Switches.notify Switches.on_notify) = refl
parse-notify_words argv0 (Switches.notify Switches.off_notify) = refl
parse-notify_words argv0 (Switches.notify Switches.no_notify) = refl

pub parse-casefold_words :
    (argv0 : Text) (c : Switches.CmdCaseFold)
    → parse (argv0 ∷ codes "fim-casefold" ∷ casefold_words c) ≡ ok (casefold_cmd c)
unfolding parse fim_command_from_string starts_with text_eq to_upper enum_from_string
    Switches.parse_casefold
parse-casefold_words argv0 (Switches.casefold Switches.on_fold) = refl
parse-casefold_words argv0 (Switches.casefold Switches.off_fold) = refl
parse-casefold_words argv0 (Switches.casefold Switches.no_fold) = refl

pub parse-boot_words :
    (argv0 : Text) (c : Boot.CmdBoot)
    → parse (argv0 ∷ codes "fim-boot" ∷ boot_words c) ≡ ok (boot_cmd c)
unfolding parse fim_command_from_string starts_with text_eq to_upper enum_from_string
    Boot.parse_boot
parse-boot_words argv0 Boot.clear = refl
parse-boot_words argv0 (Boot.set program args) = refl
parse-boot_words argv0 Boot.show = refl

pub parse-remote_words :
    (argv0 : Text) (c : Remote.CmdRemote)
    → parse (argv0 ∷ codes "fim-remote" ∷ remote_words c) ≡ ok (remote_cmd c)
unfolding parse fim_command_from_string starts_with text_eq to_upper enum_from_string
    Remote.parse_remote
parse-remote_words argv0 Remote.clear = refl
parse-remote_words argv0 (Remote.set url) = refl
parse-remote_words argv0 Remote.show = refl

pub parse-overlay_words :
    (argv0 : Text) (c : Overlay.CmdOverlay)
    → parse (argv0 ∷ codes "fim-overlay" ∷ overlay_words c) ≡ ok (overlay_cmd c)
unfolding parse fim_command_from_string starts_with text_eq to_upper enum_from_string
    Overlay.parse_overlay
parse-overlay_words argv0 (Overlay.set bwrap) = refl
parse-overlay_words argv0 (Overlay.set overlayfs) = refl
parse-overlay_words argv0 (Overlay.set unionfs) = refl
parse-overlay_words argv0 (Overlay.set none_type) = refl
parse-overlay_words argv0 Overlay.show = refl

pub parse-version_words :
    (argv0 : Text) (c : Version.CmdVersion)
    → parse (argv0 ∷ codes "fim-version" ∷ version_words c) ≡ ok (version_cmd c)
unfolding parse fim_command_from_string starts_with text_eq to_upper enum_from_string
    Version.parse_version
parse-version_words argv0 Version.short = refl
parse-version_words argv0 Version.full = refl
parse-version_words argv0 Version.deps = refl
