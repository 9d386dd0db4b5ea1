-- ===== src/Process/Environment.antt =====
-- What a plugin gets from its host.
use ai_garage.Common.{
  ◌≡◌, inl, inr, refl, Bool, true, false, List, [], ◌∷◌, Option, none, some, Text, text, text_eq,
  text_eq_iff, text_eq_refl, subst, ap, ◌∙◌, ◌||◌, any, Dict, lookup, lookup-insert, ok, Bool-cases,
  Option-cases, if◌then◌else◌, arith,
}
use ai_garage.Manifest.{PluginManifest}
use ai_garage.Attenuation.{EffectiveLease}
use ai_garage.Process.Spawning.{
  Host, Command, pass, pass_all, inject, child_env, exec_path, prepare,
}

-- The first that is there.
abbrev pub or_else : Option Text → Option Text → Option Text
or_else none other = other
or_else (some v) other = some v

-- The host's variable, if its name is among these.
abbrev pub passed : Host → List Text → Text → Option Text
passed host names k = if any (λ name. text_eq name k) names then host.var k else none

lookup-pass-same :
    (host : Host) (name : Text) (env : Dict Text)
    → lookup name (pass host name env) ≡ or_else (passed host (name ∷ []) name) (lookup name env)
unfolding pass
lookup-pass-same host name env = elim (Option-cases (host.var name)) [
  | inl e ↦ rw (pass, e, text_eq_refl name) refl
  | inr (v, e) ↦ rw (pass, e, lookup-insert name name v env, text_eq_refl name) refl
]

lookup-pass-other :
    (host : Host) (name k : Text) (env : Dict Text)
    → text_eq name k ≡ false
    → lookup k (pass host name env) ≡ lookup k env
unfolding pass
lookup-pass-other host name k env h = elim (Option-cases (host.var name)) [
  | inl e ↦ rw (pass, e) refl
  | inr (v, e) ↦ rw (pass, e, lookup-insert name k v env, h) refl
]

lookup-pass :
    (host : Host) (name k : Text) (env : Dict Text)
    → lookup k (pass host name env) ≡ or_else (passed host (name ∷ []) k) (lookup k env)
unfolding pass
lookup-pass host name k env = elim (Bool-cases (text_eq name k)) [
  | inl e ↦
      subst
        (λ (n : Text).
          lookup n (pass host name env) ≡ or_else (passed host (name ∷ []) n) (lookup n env))
        ((text_eq_iff name k).0 e) (lookup-pass-same host name env)
  | inr e ↦ rw e (lookup-pass-other host name k env e)
]

merge :
    (b c : Bool) (v rest : Option Text)
    → or_else (if c then v else none) (or_else (if b || false then v else none) rest)
      ≡ or_else (if b || c then v else none) rest
merge true true none rest = refl
merge true true (some v) rest = refl
merge true false v rest = refl
merge false true v rest = refl
merge false false v rest = refl

lookup-pass_all :
    (host : Host) (names : List Text) (k : Text) (env : Dict Text)
    → lookup k (pass_all host names env) ≡ or_else (passed host names k) (lookup k env)
unfolding pass_all
lookup-pass_all host [] k env = refl
lookup-pass_all host (name ∷ names) k env =
    lookup-pass_all host names k (pass host name env)
    ∙ ap (or_else (passed host names k)) (lookup-pass host name k env)
    ∙ merge (text_eq name k) (any (λ n. text_eq n k) names) (host.var k) (lookup k env)

or_else-none : (o : Option Text) → or_else o none ≡ o
unfolding lookup
or_else-none none = refl
or_else-none (some v) = refl

lookup-inject :
    (secrets : Dict Text) (k : Text) (env : Dict Text)
    → lookup k (inject secrets env) ≡ or_else (lookup k secrets) (lookup k env)
unfolding inject lookup
lookup-inject [] k env = refl
lookup-inject ((name, value) ∷ secrets) k env =
    ground (arith, lookup-insert name k value (inject secrets env), lookup-inject secrets k env)

-- The environment of a plugin holds nothing of the host but what it was given: a variable has the
-- value of the lease's secret of that name; else, if the manifest declares it or it is PATH, the value
-- that the host has, if any; and every other variable is not set.
pub child_env_lem :
    (host : Host) (env_passthrough : List Text) (secrets : Dict Text) (k : Text)
    → lookup k (child_env host env_passthrough secrets)
      ≡ or_else
          (lookup k secrets)
          (or_else (passed host env_passthrough k) (passed host (text "PATH" ∷ []) k))
unfolding child_env lookup
child_env_lem host env_passthrough secrets k =
    let path = pass host (text "PATH") [] in
    lookup-inject secrets k (pass_all host env_passthrough path)
    ∙ ap (or_else (lookup k secrets)) (
        lookup-pass_all host env_passthrough k path
        ∙ ap (or_else (passed host env_passthrough k))
            (lookup-pass host (text "PATH") k [] ∙ or_else-none (passed host (text "PATH" ∷ []) k)))

-- A plugin starts only as a program that exists, at one of the places where its manifest lets it be
-- looked for; in the workspace, with the environment of its lease.
pub prepare_lem :
    (host : Host) (m : PluginManifest) (lease : EffectiveLease) (workspace_root plugin_dir : Text)
    (cmd : Command)
    → prepare host m lease workspace_root plugin_dir ≡ ok cmd
    → (host.files.exists cmd.program ≡ true)
      × (cmd.program ≡ exec_path host workspace_root plugin_dir m.entrypoint.executable)
      × (cmd.current_dir ≡ workspace_root)
      × (cmd.env ≡ child_env host m.entrypoint.env_passthrough lease.secrets)
unfolding prepare
prepare_lem host m lease workspace_root plugin_dir cmd h = ground arith
