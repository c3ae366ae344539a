-- ===== src/Tests/Access.antt =====
-- Entries for a user and a group on a folder, below a wider entry on its parent.
use file_share_manager.Prelude.{List, [], ◌∷◌, map, leb, ◌≡◌, ◌↔◌, refl, inl, inr, true, arith}
use file_share_manager.Authorization.{
  read, read_write, admin, user, group, allow, deny, EffectiveAclEntry, access_rank, resolve,
  resolve_access_level,
}
use file_share_manager.Authorization.Granted.{IsGranted}
use file_share_manager.Authorization.Decision.{resolve_iff}
use file_share_manager.Authorization.Levels.{level_rank, resolve-level_rank}
use file_share_manager.Authorization.Sources.{
  EffectiveAclSource, raw_entry, resolve_effective_sources,
}
use file_share_manager.Authorization.Sources.Agreement.{resolve_effective_sources-level}

abbrev entries : List EffectiveAclEntry
entries =
    record {
      depth = 0;
      subject_type = user;
      subject_id = 7;
      effect = allow;
      access_level = read_write;
    }
    ∷ record { depth = 0; subject_type = group; subject_id = 3; effect = deny; access_level = read }
    ∷ record {
      depth = 1;
      subject_type = group;
      subject_id = 3;
      effect = allow;
      access_level = admin;
    }
    ∷ []

resolve_iff_example : (resolve entries read ≡ true) ↔ IsGranted entries read
resolve_iff_example =
    resolve_iff entries read (λ x h. omega arith, (λ x h. omega arith, (λ x h. absurd h, tt)))

resolve-level_rank_example :
    resolve entries admin ≡ leb (access_rank admin) (level_rank (resolve_access_level entries))
resolve-level_rank_example = resolve-level_rank entries admin (inr (inr refl))

abbrev sources : List EffectiveAclSource
sources =
    record {
      depth = 0;
      source_node_id = 5;
      source_node_name = "docs";
      subject_type = user;
      subject_id = 7;
      subject_name = "ann";
      subject_source = "local";
      subject_ldap_dn = "";
      effect = allow;
      access_level = read;
      inherit_to_children = true;
    }
    ∷ record {
      depth = 0;
      source_node_id = 5;
      source_node_name = "docs";
      subject_type = group;
      subject_id = 3;
      subject_name = "staff";
      subject_source = "local";
      subject_ldap_dn = "";
      effect = allow;
      access_level = admin;
      inherit_to_children = true;
    }
    ∷ []

resolve_effective_sources-level_example :
    (resolve_effective_sources sources).0 ≡ resolve_access_level (map raw_entry sources)
resolve_effective_sources-level_example =
    resolve_effective_sources-level sources (inl refl, (inr refl, tt))
