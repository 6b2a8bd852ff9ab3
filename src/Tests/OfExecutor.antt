-- ===== src/Tests/OfExecutor.antt =====
-- The theorems about commands at an image of zeros.
use flatimage.Base.{ℕ, Bool, true, ◌≡◌, refl, ◌&&◌, some, ok, err, List, [], ◌∷◌, arith}
use flatimage.Bytes.{Bytes}
use flatimage.Text.{Text, codes}
use flatimage.Reserved.{boot}
use flatimage.Reserved.Layout.{IsImage}
use flatimage.Reserved.Small.{bwrap}
use flatimage.Flags.{member, contains}
use flatimage.Flags.Laws.{is_proper}
use flatimage.Flags.Permission as Permissions
use flatimage.Flags.Permission.{Permission, permissions_class}
use flatimage.Parser.Command.{perms_cmd}
use flatimage.Parser.Perms as Perms
use flatimage.Parser.Words.{words}
use flatimage.Db.Laws.{built}
use flatimage.Db.Stored.{Fits}
use flatimage.Executor.Laws.{document}
use flatimage.Executor.Line.{Rest, execute_command, contains-set_line}
use flatimage.Executor.Instances.{Instance}
use flatimage.Tests.Image.{empty_image, empty_image-IsImage}
use flatimage.Tests.Documents.{documents}
use flatimage.Tests.Library.Codec.{print}

abbrev pub alone : Rest
alone = record { expand = λ v. ok v; mounted = bwrap; other = λ c f. some (err "not here", f) }

abbrev pub home_and_network : List Permission
home_and_network = Permissions.home ∷ Permissions.network ∷ []

contains-set_line_example :
    (g : Bytes) × (execute_command documents alone 0
        (codes "app" ∷ words (perms_cmd (Perms.set home_and_network)))
        (some empty_image)
      ≡ some (ok [], some g))
    × IsImage 0 g
    × ((p : Permission)
        → contains permissions_class 0 p (some g)
          ≡ (is_proper permissions_class p && member permissions_class home_and_network p))
contains-set_line_example =
    contains-set_line documents alone 0 (codes "app") home_and_network empty_image
      empty_image-IsImage (omega arith, (omega arith, tt)) refl

abbrev pub args : List Text
args = codes "-l" ∷ []

pub boot-Fits : Fits documents boot (document documents record { program = []; args = args })
unfolding print built
boot-Fits = record {
  text = print (document documents record { program = []; args = args }) [];
  dumped = refl;
  short = omega arith;
}

abbrev path_instances : List Text
path_instances = codes "/i/345" ∷ codes "/i/12" ∷ codes "/i/x" ∷ codes "/i/700" ∷ []

abbrev in_proc : ℕ → Bool
in_proc pid = true
