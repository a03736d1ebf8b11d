-- ===== src/Datadir/Keys.antt =====
-- The names that `ExpandUserDir` makes.
use mlbtcc.Base.{
  ℕ, ◌<◌, ◌≡◌, ◌≢◌, ◌∙◌, refl, ap, arith, Option, none, some, [], ◌∷◌, ◌++◌, length, take, drop,
  All,
}
use mlbtcc.Base.{take_of_length-le}
use mlbtcc.Base.Bytes.{Bytes}
use mlbtcc.Datadir.{strstr, dollar_user, strcpy, expand_user_dir}

abbrev NoDollar : ℕ → Type 0
NoDollar c = c ≢ b'$'

strstr-dollar_user :
    (before after : Bytes)
    → All NoDollar before
    → strstr (before ++ (dollar_user ++ after)) dollar_user ≡ some (before, dollar_user ++ after)
unfolding strstr
strstr-dollar_user [] after h = refl
strstr-dollar_user (c ∷ before) after (hc, h) = ground (arith, strstr-dollar_user before after h)

strcpy_lem : (text : Bytes) → length text < 512 → strcpy text ≡ some text
unfolding strcpy
strcpy_lem text h = ground arith

inner_step :
    (path before rest name : Bytes)
    → strstr path dollar_user ≡ some (before, rest)
    → elim (strstr path dollar_user) as (λ _. Option Bytes) [
      | none ↦ strcpy path
      | some (front, dollar) ↦ some (take 511 (front ++ (name ++ drop 5 dollar)))
    ]
      ≡ some (take 511 (before ++ (name ++ drop 5 rest)))
inner_step path before rest name found = rw found refl

expand_step :
    (path before rest name : Bytes)
    → strstr path dollar_user ≡ some (before, rest)
    → strcpy path ≡ some path
    → expand_user_dir (some name) path ≡ some (take 511 (before ++ (name ++ drop 5 rest)))
unfolding expand_user_dir
expand_step path before rest name found kept =
    rw (found, kept) (inner_step path before rest name found)

-- With `$USER` behind characters that are no `$`, `expand_user_dir` puts the user's name in its
-- place, if path and result fit the buffers; without a user the path stays as it is.
pub expand_user_dir-dollar_user :
    (before after name : Bytes)
    → All NoDollar before
    → length (before ++ (dollar_user ++ after)) < 512
    → length (before ++ (name ++ after)) < 512
    → (expand_user_dir (some name) (before ++ (dollar_user ++ after))
        ≡ some (before ++ (name ++ after)))
      × (expand_user_dir none (before ++ (dollar_user ++ after))
          ≡ some (before ++ (dollar_user ++ after)))
unfolding expand_user_dir
expand_user_dir-dollar_user before after name h fits fits' =
    let kept = strcpy_lem (before ++ (dollar_user ++ after)) fits in
    let found = strstr-dollar_user before after h in
    (
      expand_step (before ++ (dollar_user ++ after)) before (dollar_user ++ after) name found kept
          ∙ ap some (take_of_length-le 511 (before ++ (name ++ after)) (omega arith)),
      rw found kept,
    )
