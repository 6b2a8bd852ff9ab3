-- ===== src/Tests/OfFlags.antt =====
-- The theorems about the flag sets at an image.
use flatimage.Base.{refl, ◌||◌, ◌&&◌, not, true, List, [], ◌∷◌, some}
use flatimage.Flags.{set, add, del, contains, member}
use flatimage.Flags.Refine.{FlagsAfter}
use flatimage.Flags.Contract
use flatimage.Flags.Permission.{permissions_class}
use flatimage.Flags.Permission
use flatimage.Flags.Permission.Lawful.{permissions_class_laws}
use flatimage.Flags.Unshare.{unshares_class}
use flatimage.Flags.Unshare
use flatimage.Flags.Unshare.Lawful.{unshares_class_laws}
use flatimage.Tests.Image.{empty_image, empty_image-IsImage}

abbrev two_flags : List Permission.Permission
two_flags = Permission.home ∷ Permission.network ∷ []

set_lem_example :
    FlagsAfter permissions_class 0 empty_image
      (member permissions_class two_flags)
      (set permissions_class 0 two_flags (some empty_image))
set_lem_example =
    Contract.set_lem permissions_class permissions_class_laws 0 empty_image two_flags
      empty_image-IsImage refl

add_lem_example :
    FlagsAfter permissions_class 0 empty_image
      (λ p.
        member permissions_class two_flags p || contains permissions_class 0 p (some empty_image))
      (add permissions_class 0 two_flags (some empty_image))
add_lem_example =
    Contract.add_lem permissions_class permissions_class_laws 0 empty_image two_flags
      empty_image-IsImage refl

abbrev one_option : List Unshare.Unshare
one_option = Unshare.net ∷ []

del_lem_example :
    FlagsAfter unshares_class 0 empty_image
      (λ p.
        not (member unshares_class one_option p) && contains unshares_class 0 p (some empty_image))
      (del unshares_class 0 one_option (some empty_image))
del_lem_example =
    Contract.del_lem unshares_class unshares_class_laws 0 empty_image one_option empty_image-IsImage
      refl

del_all_example :
    FlagsAfter permissions_class 0 empty_image
      (λ p. true)
      (set permissions_class 0 (Permission.all ∷ []) (some empty_image))
    × FlagsAfter permissions_class 0 empty_image
        (λ p. true)
        (add permissions_class 0 (Permission.all ∷ []) (some empty_image))
    × FlagsAfter permissions_class 0 empty_image
        (λ p. true)
        (del permissions_class 0 (Permission.all ∷ []) (some empty_image))
del_all_example =
    Contract.del_all permissions_class permissions_class_laws 0 empty_image empty_image-IsImage refl
