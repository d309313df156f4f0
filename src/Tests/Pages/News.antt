-- ===== src/Tests/Pages/News.antt =====
-- A page with one entry, and one whose entry has no title.
use c_computer_networking.Prelude.{◌≡◌, refl, some, [], ◌∷◌, ◌++◌, arith}
use c_computer_networking.Prelude.Outcome.{ok}
use c_computer_networking.Movies.Text.{codes}
use c_computer_networking.Chunks.News.{skip_to, strtok, field, newest_entry}
use c_computer_networking.Chunks.News.Entry.{Page, IsWished, written, newest_entry-found}

abbrev page : Page
page = record {
  head = codes "<rss>";
  before_title = codes " ";
  title = codes "Open";
  before_link = codes "/title>";
  link = codes "http";
  before_description = codes "/link>";
  description = codes "all day";
  before_date = codes "/description>";
  date = codes "Mon";
  end = codes "/pubDate>" ++ (0 ∷ []);
}

page-IsWished : IsWished page
page-IsWished = record {
  no_item = refl;
  no_title = refl;
  no_link = refl;
  no_description = refl;
  no_date = refl;
  title_field = (refl, omega arith);
  link_field = (refl, omega arith);
  description_field = (refl, omega arith);
  date_field = (refl, omega arith);
}

newest_entry-found_example :
    newest_entry (written page)
    ≡ ok (record {
      title = some (codes "Open");
      link = some (codes "http");
      description = some (codes "all day");
      date = some (codes "Mon");
    })
newest_entry-found_example = newest_entry-found page page-IsWished

-- An empty title is printed as the name of its end tag.
empty_title_test :
    field (codes "<title>") (codes "<title></title><link>")
    ≡ ok (some (codes "/title>"), codes "</title>" ++ (0 ∷ codes "link>"))
unfolding field skip_to strtok
empty_title_test = refl
