-- ===== src/Core/Media/Television.antt =====
-- crates/fixer-core/src/media/television.rs and media/anime.rs: series, their parts and the numbers
-- of episodes (u32). The texts of the errors, formatted numbers, are left out.
use fixer.Common.{
  ℕ, Bool, true, false, not, ◌||◌, ◌==◌, nat_eq, Option, none, some, List, [], if◌then◌else◌,
}
use fixer.Std.Text.{Text}
use fixer.Std.Result.{Result, ok, err, ◌>>◌, ensure}
use fixer.Core.Error.{CoreError, invalid_domain_value}
use fixer.Core.Locale.{LocalizedValue, empty_value}
use fixer.Core.Media.Common.{StringId}
use fixer.Core.Media.Parts.{Credit, ArtworkReference}

pub data OrderingScheme : Type 0 where
  aired dvd absolute : OrderingScheme

pub record EpisodeSequence : Type 0 where
  pub scheme : OrderingScheme
  pub season : Option ℕ
  pub episode : ℕ

unfoldable pub aired_sequence : ℕ → ℕ → Result CoreError EpisodeSequence
aired_sequence season episode = do
  ensure (not (episode == 0)) (invalid_domain_value "episode_sequence" [])
  ok (record { scheme = aired; season = some season; episode = episode })

unfoldable pub absolute_sequence : ℕ → Result CoreError EpisodeSequence
absolute_sequence episode = do
  ensure (not (episode == 0)) (invalid_domain_value "episode_sequence" [])
  ok (record { scheme = absolute; season = none; episode = episode })

pub record Episode : Type 0 where
  pub id : StringId
  pub titles : LocalizedValue Text
  pub summaries : LocalizedValue Text
  pub sequence : EpisodeSequence
  pub runtime : Option ℕ
  pub credits : List Credit
  pub artwork : List ArtworkReference

abbrev pub new_episode : StringId → LocalizedValue Text → EpisodeSequence → Episode
new_episode id titles sequence = record {
  id = id;
  titles = titles;
  summaries = empty_value;
  sequence = sequence;
  runtime = none;
  credits = [];
  artwork = [];
}

pub record Season : Type 0 where
  pub id : StringId
  pub number : ℕ
  pub episodes : List Episode
  pub artwork : List ArtworkReference

-- It never fails.
abbrev pub new_season : StringId → ℕ → List Episode → Result CoreError Season
new_season id number episodes =
    ok (record { id = id; number = number; episodes = episodes; artwork = [] })

pub record Series : Type 0 where
  pub id : StringId
  pub titles : LocalizedValue Text
  pub summaries : LocalizedValue Text
  pub ordering : OrderingScheme
  pub seasons : List Season
  pub artwork : List ArtworkReference

abbrev pub new_series : StringId → LocalizedValue Text → OrderingScheme → List Season → Series
new_series id titles ordering seasons = record {
  id = id;
  titles = titles;
  summaries = empty_value;
  ordering = ordering;
  seasons = seasons;
  artwork = [];
}

pub data AnimeSeriesRelation : Type 0 where
  original adaptation sequel prequel side_story spin_off : AnimeSeriesRelation

pub data AnimeEpisodeClass : Type 0 where
  regular ova ona special : AnimeEpisodeClass

pub record AnimeEpisode : Type 0 where
  pub id : StringId
  pub titles : LocalizedValue Text
  pub class : AnimeEpisodeClass
  pub aired_number : Option ℕ
  pub absolute_number : Option ℕ

-- A number that is there is not 0, and one of the two is there.
abbrev is_zero : Option ℕ → Bool
is_zero none = false
is_zero (some number) = number == 0

abbrev are_missing : Option ℕ → Option ℕ → Bool
are_missing none none = true
are_missing none (some number) = false
are_missing (some number) other = false

unfoldable pub new_anime_episode :
    StringId
    → LocalizedValue Text
    → AnimeEpisodeClass
    → Option ℕ
    → Option ℕ
    → Result CoreError AnimeEpisode
new_anime_episode id titles class aired_number absolute_number =
    if is_zero aired_number || is_zero absolute_number || are_missing aired_number absolute_number
    then err (invalid_domain_value "anime_episode.number" [])
    else ok (record {
      id = id;
      titles = titles;
      class = class;
      aired_number = aired_number;
      absolute_number = absolute_number;
    })

pub record Cour : Type 0 where
  pub number : ℕ
  pub episodes : List AnimeEpisode

unfoldable pub new_cour : ℕ → List AnimeEpisode → Result CoreError Cour
new_cour number episodes = do
  ensure (not (number == 0)) (invalid_domain_value "cour.number" [])
  ok (record { number = number; episodes = episodes })

pub record AnimeSeries : Type 0 where
  pub id : StringId
  pub titles : LocalizedValue Text
  pub summaries : LocalizedValue Text
  pub artwork : List ArtworkReference
  pub relation : AnimeSeriesRelation
  pub cours : List Cour

abbrev pub new_anime_series :
    StringId → LocalizedValue Text → AnimeSeriesRelation → List Cour → AnimeSeries
new_anime_series id titles relation cours = record {
  id = id;
  titles = titles;
  summaries = empty_value;
  artwork = [];
  relation = relation;
  cours = cours;
}
